-- ===== src/Strings/Quote.antt =====
-- `strconv.Quote`, the verb `%q` of `fmt`, on ASCII texts.
use Prim.Native.Char.{Char, code}
use conduit_operator.Prelude.{ℕ, String, ◌<>◌, ◌≡◌, refl, ◌||◌, ltb, nat_eq, if◌then◌else◌}
use Prim.Native.Nat.{◌/◌, ◌%◌, ◌+◌}
use conduit_operator.Strings.Case.{of_code}

hex_digit : ℕ → Char
unfolding of_code
hex_digit n = if ltb n 10 then of_code (b'0' + n) else of_code (87 + n)

quote_char : Char → String
unfolding hex_digit
quote_char c =
    let n = code c in
    if nat_eq n 34
    then "\\\""
    else if nat_eq n 92
    then "\\\\"
    else if nat_eq n 7
    then "\\a"
    else if nat_eq n 8
    then "\\b"
    else if nat_eq n 9
    then "\\t"
    else if nat_eq n 10
    then "\\n"
    else if nat_eq n 11
    then "\\v"
    else if nat_eq n 12
    then "\\f"
    else if nat_eq n 13
    then "\\r"
    else if ltb n 32 || nat_eq n 127
    then "\\x" <> String.◌∷◌ (hex_digit (n / 16)) (String.◌∷◌ (hex_digit (n % 16)) String.[])
    else String.◌∷◌ c String.[]

quote_body : String → String
quote_body String.[] = ""
quote_body (String.◌∷◌ c s) = quote_char c <> quote_body s

unfoldable pub quote : String → String
unfolding quote_char quote_body
quote s = "\"" <> (quote_body s <> "\"")

quote_test : quote "a\"b\n" ≡ "\"a\\\"b\\n\""
unfolding quote
quote_test = refl
