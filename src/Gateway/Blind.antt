-- ===== src/Gateway/Blind.antt =====
-- The course of the gateway under a renaming of the upstream keys.
use ai_local.Prelude.{List, Text, [], ap, map, refl, sym, ℕ, ◌∙◌, ◌∷◌, ◌≡◌}
use ai_local.Apml.{ApmlConfig}
use ai_local.Json.{JsonGet}
use ai_local.Keystore.{new_store}
use ai_local.Keystore.Renamed.{renamed_store, IsRenaming, delete_key-renamed}
use ai_local.Gateway.{
  Gateway, GatewayEvent, at, key_added, without, answered, arrived, failed, gateway_step,
  key_deleted, stopped, worked, init_services,
}
use ai_local.Proxy.Secrecy.{serve_blind}
use ai_local.Proxy.Serve.{Flight}
use ai_local.Usage.Tables.{Database}
use ai_local.Proxy.Rewrite.{JsonSet, Url}
use ai_local.Admin.{serve_delete_key}
use mathlib.Core.Path.{subst}
use ai_local.Gateway.Beside.{
  AllAlike, AllAlike-at, AllAlike-without, IsBeside, beside, land-IsBeside, rename_event,
  renamed-SameButRealKeys, take_off-IsBeside,
}
use ai_local.Admin.Renamed.{serve_add_key-renamed}

module _ (sha256 : Text → List ℕ) (get : JsonGet) (set : JsonSet) (set_url : Url → Url → Url)
    (cfg : ApmlConfig) where
  -- What happens to a gateway, event by event.
  unfoldable pub course : List GatewayEvent → Gateway → Gateway
  course [] g = g
  course (e ∷ es) g = course es (gateway_step sha256 get set set_url cfg e g)

  module _ (rename : Text → Text) (h : IsRenaming rename) where
    abbrev stepped : GatewayEvent → Gateway → Gateway
    stepped e g = gateway_step sha256 get set set_url cfg e g

    step-IsBeside :
        (e : GatewayEvent) (g : Gateway) (fs : List Flight)
        → AllAlike g.flights fs
        → IsBeside sha256 get set set_url cfg rename
            (stepped e g)
            (stepped (rename_event rename e) (beside rename g fs))
    unfolding gateway_step rename_event serve_delete_key
    step-IsBeside (key_added id entropy req) g fs a = (
      fs,
      ap (λ x. record { store = x.0; backend = g.backend; flights = fs })
          (serve_add_key-renamed sha256 cfg rename h id entropy req g.store),
      a,
    )
    step-IsBeside (key_deleted uid) g fs a = (
      fs,
      ap (λ x. record { store = x.0; backend = g.backend; flights = fs })
          (delete_key-renamed rename uid g.store),
      a,
    )
    step-IsBeside (arrived daily_fails monthly_fails now path target x) g fs a =
        take_off-IsBeside sha256 get set set_url cfg rename g fs _ _ a (
          serve_blind get set set_url sha256 daily_fails monthly_fails now cfg g.backend.db g.store
            (renamed_store rename g.store) path target x (renamed-SameButRealKeys rename g.store))
    step-IsBeside (answered n now res) g fs a =
        land-IsBeside sha256 get set set_url cfg rename n now res g fs (at n g.flights) (at n fs) a
          (AllAlike-at n g.flights fs a)
    step-IsBeside (failed n) g fs a = (without n fs, refl, AllAlike-without n g.flights fs a)
    step-IsBeside (worked pick) g fs a = (fs, refl, a)
    step-IsBeside stopped g fs a = (fs, refl, a)

    course-IsBeside :
        (es : List GatewayEvent) (g : Gateway) (fs : List Flight)
        → AllAlike g.flights fs
        → IsBeside sha256 get set set_url cfg rename
            (course es g)
            (course (map (rename_event rename) es) (beside rename g fs))
    unfolding course
    course-IsBeside [] g fs a = (fs, refl, a)
    course-IsBeside (e ∷ es) g fs a =
        let (fs', same, b) = step-IsBeside e g fs a in
        let (fs'', rest, c) = course-IsBeside es (stepped e g) fs' b in
        (fs'', ap (course (map (rename_event rename) es)) same ∙ rest, c)

    -- The upstream keys leave no trace but in the requests that carry them. Give every upstream key
    -- another name, no two keys the same one and blank names to blank keys only, and let the same
    -- things happen to a gateway from its start, with the other names in the calls that add keys:
    -- then it has the same keys but for these names, the same queue, worker and database, and the
    -- same requests under way but for the upstream key and the header that carries it.
    pub course_blind :
        (es : List GatewayEvent) (db : Database)
        → ((course (map (rename_event rename) es) (init_services db)).store
            ≡ renamed_store rename (course es (init_services db)).store)
          × ((course (map (rename_event rename) es) (init_services db)).backend
              ≡ (course es (init_services db)).backend)
          × AllAlike
              (course es (init_services db)).flights
              (course (map (rename_event rename) es) (init_services db)).flights
    unfolding init_services new_store
    course_blind es db =
        let (fs, same, alike) = course-IsBeside es (init_services db) [] tt in
        (
          ap (λ (g : Gateway). g.store) same,
          ap (λ (g : Gateway). g.backend) same,
          subst (AllAlike (course es (init_services db)).flights)
              (sym (ap (λ (g : Gateway). g.flights) same)) alike,
        )
