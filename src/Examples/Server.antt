-- ===== src/Examples/Server.antt =====
-- A server that stores one resource and calls the webhook for each update of it.
use conduit_operator.Prelude.{
  ℕ, suc, String, ◌≡◌, refl, ap, subst, ◌⊎◌, Option, none, some, List, [], ◌∷◌, inl, inr,
}
use conduit_operator.Prelude.Result.{Result, err, ok}
use conduit_operator.Api.Types.{Conduit, ConduitStatus}
use conduit_operator.Semver.{at_least_minor}
use conduit_operator.Webhook.Defaulter.{default_conduit}
use conduit_operator.Webhook.Object.{conduit}
use conduit_operator.Webhook.Validator.{Admission, admitted, refused, failed, validate_update}
use conduit_operator.Controller.State.{Answer, unread, found, Operation, created, unchanged}
use conduit_operator.Controller.Cluster.{Fetch, fetched, not_found, unavailable, Cluster}
use conduit_operator.System.{
  Webhook, service, Updated, Rewritten, IsServer, Leaves, stay, write, updates,
}
use mathlib.Core.Option.{some-injective}
use conduit_operator.System.Ready.{IsStatusStore}
use conduit_operator.Examples.Parts.{no_objects}
use conduit_operator.Examples.Versions.{small}
use conduit_operator.Examples.Validation.{answering, directory, plugins}
use conduit_operator.Examples.Cluster.{
  Shop, tidy, keep, keep_at, write as saved, config_map, secret, claim, deployment,
  service as cluster_ip,
}
use conduit_operator.Examples.Admitted.{specs, clients, files}

abbrev pub hook : Webhook
hook = record {
  specs = specs;
  plugins = plugins;
  http = answering;
  reader = no_objects;
  list = [];
  temp_dir = directory;
  clients = clients;
  nil_registry = λ p fp w. (w, none);
  semver = small;
  constraint = at_least_minor 11;
  parse_error = λ s. none;
  show = λ e. e.detail;
}

abbrev pub there : Fetch → Option Conduit
there (fetched c) = some c
there not_found = none
there (unavailable e) = none

abbrev pub stored : Shop → Option Conduit
stored w = there w.stored

abbrev pub made : Conduit → Conduit
made c = default_conduit (λ k. k) c

abbrev pub answer : Conduit → Admission
answer c = (validate_update (service hook) hook.show (conduit (made c)) files).1

-- An update that the webhook admits is stored, with the status as it was.
abbrev pub accept : Conduit → Conduit → ℕ → Admission → Shop × Option String
accept old new n admitted =
    (record { stored = keep (record new { status = old.status }); writes = suc n }, none)
accept old new n (refused name errs) = (record { stored = fetched old; writes = n }, some name)
accept old new n (failed e) = (record { stored = fetched old; writes = n }, some e)

abbrev pub update_in : Fetch → ℕ → Conduit → Shop × Option String
update_in (fetched old) n c = accept old (made c) n (answer c)
update_in not_found n c = (record { stored = not_found; writes = n }, some "not found")
update_in (unavailable e) n c = (record { stored = unavailable e; writes = n }, some e)

abbrev save_in : Fetch → ℕ → ConduitStatus → Shop × Option String
save_in (fetched old) n status =
    (record { stored = fetched (record old { status = status }); writes = suc n }, none)
save_in not_found n status = (record { stored = not_found; writes = n }, some "not found")
save_in (unavailable e) n status = (record { stored = unavailable e; writes = n }, some e)

abbrev status_in : Fetch → Result ConduitStatus
status_in (fetched c) = ok c.status
status_in not_found = err "not found"
status_in (unavailable e) = err e

abbrev pub serving : Cluster
serving = record tidy {
  update_conduit = λ c w. update_in w.stored w.writes c;
  get_status = λ c w. status_in w.stored;
  save_status = λ c status w. save_in w.stored w.writes status;
}

there-keep_at :
    (deleted_at : Option ℕ) (fs : List String) (c : Conduit)
    → (there (keep_at deleted_at fs c) ≡ none) ⊎ (there (keep_at deleted_at fs c) ≡ some c)
there-keep_at none fs c = inr refl
there-keep_at (some t) [] c = inl refl
there-keep_at (some t) (f ∷ fs) c = inr refl

Updated-Rewritten :
    (old new : Conduit) (n m : ℕ)
    → Updated hook old new
    → Rewritten hook serving stored
        (record { stored = fetched old; writes = n })
        (record { stored = keep new; writes = m })
Updated-Rewritten old new n m updated =
    elim (there-keep_at new.meta.deletion_timestamp new.meta.finalizers new) [
      | inl gone ↦ inr (inl gone)
      | inr e ↦ inr (inr (old, new, refl, e, updated))
    ]

accept-Rewritten :
    (old c : Conduit) (n : ℕ) (a : Admission)
    → answer c ≡ a
    → Rewritten hook serving stored
        (record { stored = fetched old; writes = n })
        (accept old (made c) n a).0
accept-Rewritten old c n admitted e =
    Updated-Rewritten old (record (made c) { status = old.status }) n (suc n)
      (record { asked = c; now = λ k. k; seen = files; admits = e; spec = refl; status = refl })
accept-Rewritten old c n (refused name errs) e = inl refl
accept-Rewritten old c n (failed m) e = inl refl

update_in-Rewritten :
    (fetch : Fetch) (n : ℕ) (c : Conduit)
    → Rewritten hook serving stored (record { stored = fetch; writes = n }) (update_in fetch n c).0
update_in-Rewritten (fetched old) n c = accept-Rewritten old c n (answer c) refl
update_in-Rewritten not_found n c = inl refl
update_in-Rewritten (unavailable e) n c = inl refl

save_in-Saved :
    (fetch : Fetch) (n : ℕ) (status : ConduitStatus)
    → (stored (save_in fetch n status).0 ≡ there fetch)
      ⊎ ((old : Conduit) × (there fetch ≡ some old)
          × (stored (save_in fetch n status).0 ≡ some (record old { status = status })))
save_in-Saved (fetched old) n status = inr (old, refl, refl)
save_in-Saved not_found n status = inl refl
save_in-Saved (unavailable e) n status = inl refl

-- The world after the object was saved.
abbrev written : {A : Type 0} → Answer Shop A → A → Shop → Shop
written (unread e) a w = w
written (found a owner save) a' w = (save a').0

found-Leaves :
    {A : Type 0} (a : A) (save : A → Shop × Result Operation) (w : Shop)
    → ((a' : A) → stored (save a').0 ≡ stored w)
    → Leaves hook serving stored w (found a none save)
found-Leaves a save w h a2 owner save2 e a' =
    write (stay w) (updates (inl (subst (λ x. stored (written x a' w) ≡ stored w) e (h a'))))

pub serving-IsServer : IsServer hook serving stored
serving-IsServer = record {
  reads = λ req w c h. ap there h;
  updates = λ c w. write (stay w) (updates (update_in-Rewritten w.stored w.writes c));
  saves = λ c status w. (w, stay w, save_in-Saved w.stored w.writes status);
  config_maps = λ nn w. found-Leaves config_map (λ cm. (saved w, ok created)) w (λ a. refl);
  secrets = λ nn w. found-Leaves secret (λ s. (saved w, ok created)) w (λ a. refl);
  volumes = λ pvc w. found-Leaves claim (λ p. (w, ok unchanged)) w (λ a. refl);
  deployments = λ nn w. found-Leaves deployment (λ d. (saved w, ok created)) w (λ a. refl);
  services = λ nn w. found-Leaves cluster_ip (λ s. (saved w, ok created)) w (λ a. refl);
}

status_in-latest :
    (fetch : Fetch) (status : ConduitStatus)
    → status_in fetch ≡ ok status
    → (old : Conduit) × (there fetch ≡ some old) × (old.status ≡ status)
status_in-latest (fetched c) status h = let e : c.status ≡ status = cc h in (c, refl, e)
status_in-latest not_found status h = absurd (cc h)
status_in-latest (unavailable e) status h = absurd (cc h)

abbrev with_status : ConduitStatus → Conduit → Conduit
with_status status c = record c { status = status }

save_in-stores :
    (fetch : Fetch) (n : ℕ) (old : Conduit) (status : ConduitStatus)
    → there fetch ≡ some old
    → there (save_in fetch n status).0.stored ≡ some (record old { status = status })
save_in-stores (fetched c) n old status h =
    ap (λ x. some (with_status status x)) (some-injective c old h)
save_in-stores not_found n old status h = absurd (cc h)
save_in-stores (unavailable e) n old status h = absurd (cc h)

pub serving-IsStatusStore : IsStatusStore serving stored
serving-IsStatusStore = record {
  latest = λ c w status h. status_in-latest w.stored status h;
  equal = λ a b h. absurd (cc h);
  saved = λ c old status w h k. save_in-stores w.stored w.writes old status h;
}
