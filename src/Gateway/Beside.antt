-- ===== src/Gateway/Beside.antt =====
-- A gateway beside one whose upstream keys have other names.
use mathlib.Core.Option
use ai_local.Prelude.{
  Bool, List, Option, Text, [], ap, lookup, none, refl, some, suc, zero, ℕ, ◌++◌, ◌∙◌, ◌∷◌, ◌≡◌,
}
use ai_local.Apml.{ProviderConfig, ApmlConfig}
use ai_local.Json.{JsonGet}
use ai_local.Keystore.{KeyRecord, Store}
use ai_local.Keystore.Renamed.{lookup-map_values, renamed, renamed_store}
use ai_local.Gateway.{Gateway, GatewayEvent, at, key_added, without, land, take_off}
use ai_local.Proxy.Auth.{Session}
use ai_local.Proxy.Respond.{
  Response, modify_response, respond_stream, respond_whole, usage_record, settle,
}
use ai_local.Proxy.Alike.{AlikeFlight, AlikeFound, SameButRealKeys, AlikeServed}
use ai_local.Proxy.Serve.{Flight, Served, forwarded, integrity_violation, not_found, refused}
use ai_local.Usage.Tables.{Time}
use ai_local.Proxy.Rewrite.{JsonSet, Url}

abbrev pub AllAlike : List Flight → List Flight → Type 0
AllAlike [] [] = Unit {0}
AllAlike (f ∷ fs) (f' ∷ fs') = AlikeFlight f f' × AllAlike fs fs'
AllAlike _ _ = ⊥

abbrev pub AlikeAt : Option Flight → Option Flight → Type 0
AlikeAt none none = Unit {0}
AlikeAt (some f) (some f') = AlikeFlight f f'
AlikeAt _ _ = ⊥

pub AllAlike-at : (n : ℕ) (fs fs' : List Flight) → AllAlike fs fs' → AlikeAt (at n fs) (at n fs')
unfolding at
AllAlike-at n [] [] h = tt
AllAlike-at zero (f ∷ fs) (f' ∷ fs') h = h.0
AllAlike-at (suc n) (f ∷ fs) (f' ∷ fs') h = AllAlike-at n fs fs' h.1
AllAlike-at n [] (f' ∷ fs') h = absurd h
AllAlike-at n (f ∷ fs) [] h = absurd h

pub AllAlike-without :
    (n : ℕ) (fs fs' : List Flight) → AllAlike fs fs' → AllAlike (without n fs) (without n fs')
unfolding without
AllAlike-without n [] [] h = tt
AllAlike-without zero (f ∷ fs) (f' ∷ fs') h = h.1
AllAlike-without (suc n) (f ∷ fs) (f' ∷ fs') h = (h.0, AllAlike-without n fs fs' h.1)
AllAlike-without n [] (f' ∷ fs') h = absurd h
AllAlike-without n (f ∷ fs) [] h = absurd h

AllAlike-append :
    (fs fs' : List Flight) (f f' : Flight)
    → AllAlike fs fs'
    → AlikeFlight f f'
    → AllAlike (fs ++ f ∷ []) (fs' ++ f' ∷ [])
AllAlike-append [] [] f f' h a = (a, tt)
AllAlike-append (x ∷ fs) (x' ∷ fs') f f' h a = (h.0, AllAlike-append fs fs' f f' h.1 a)
AllAlike-append [] (x' ∷ fs') f f' h a = absurd h
AllAlike-append (x ∷ fs) [] f f' h a = absurd h

-- The upstream key of a session leaves no trace in what becomes of its response.
modify_response-blind :
    (get : JsonGet) (provider : ProviderConfig) (s : Session) (real_key path : Text) (now : Time)
    (streaming : Bool) (res : Response)
    → modify_response get provider (record s { real_key = real_key }) path now streaming res
      ≡ modify_response get provider s path now streaming res
unfolding modify_response respond_stream respond_whole usage_record
modify_response-blind get provider s real_key path now streaming res = refl

module _ (rename : Text → Text) where
  unfoldable pub rename_event : GatewayEvent → GatewayEvent
  rename_event (key_added id entropy req) =
      key_added id entropy (record req { real_key = rename req.real_key })
  rename_event e = e

  -- The gateway with the other names for its upstream keys and with these flights.
  abbrev pub beside : Gateway → List Flight → Gateway
  beside g fs = record { store = renamed_store rename g.store; backend = g.backend; flights = fs }

  pub renamed-SameButRealKeys : (s : Store) → SameButRealKeys s (renamed_store rename s)
  renamed-SameButRealKeys s hash =
      rw (lookup-map_values (renamed rename) hash s.by_hash) (alike (lookup hash s.by_hash))
    where
      alike : (o : Option KeyRecord) → AlikeFound o (Option.map (renamed rename) o)
      alike none = tt
      alike (some r) = (refl, refl)

outcome-blind :
    (get : JsonGet) (f f' : Flight) (now : Time) (res : Response)
    → AlikeFlight f f'
    → modify_response get f'.provider f'.session f'.path now f'.streaming res
      ≡ modify_response get f.provider f.session f.path now f.streaming res
outcome-blind get f f' now res a =
    let (key, ip, alias) = a.session in
    let same : f'.session ≡ record f.session { real_key = f'.session.real_key } =
      rw (key, ip, alias) refl in
    rw (a.path, a.provider, a.streaming)
      (ap (λ s. modify_response get f'.provider s f'.path now f'.streaming res) same
        ∙ modify_response-blind get f'.provider f.session f'.session.real_key f'.path now
            f'.streaming res)

module _ (sha256 : Text → List ℕ) (get : JsonGet) (set : JsonSet) (set_url : Url → Url → Url)
    (cfg : ApmlConfig) (rename : Text → Text) where
  -- A gateway beside another one.
  abbrev pub IsBeside : Gateway → Gateway → Type 0
  IsBeside g g' = (fs : List Flight) × (g' ≡ beside rename g fs) × AllAlike g.flights fs

  pub take_off-IsBeside :
      (g : Gateway) (fs : List Flight) (v v' : Served)
      → AllAlike g.flights fs
      → AlikeServed v v'
      → IsBeside (take_off v g) (take_off v' (beside rename g fs))
  unfolding take_off
  take_off-IsBeside g fs (forwarded f) (forwarded f') a b =
      (fs ++ f' ∷ [], refl, AllAlike-append g.flights fs f f' a b)
  take_off-IsBeside g fs not_found not_found a b = (fs, refl, a)
  take_off-IsBeside g fs integrity_violation integrity_violation a b = (fs, refl, a)
  take_off-IsBeside g fs (refused e) (refused e') a b = (fs, refl, a)
  take_off-IsBeside g fs (forwarded f) not_found a b = absurd b
  take_off-IsBeside g fs (forwarded f) integrity_violation a b = absurd b
  take_off-IsBeside g fs (forwarded f) (refused e') a b = absurd b
  take_off-IsBeside g fs not_found (forwarded f') a b = absurd b
  take_off-IsBeside g fs not_found integrity_violation a b = absurd b
  take_off-IsBeside g fs not_found (refused e') a b = absurd b
  take_off-IsBeside g fs integrity_violation (forwarded f') a b = absurd b
  take_off-IsBeside g fs integrity_violation not_found a b = absurd b
  take_off-IsBeside g fs integrity_violation (refused e') a b = absurd b
  take_off-IsBeside g fs (refused e) (forwarded f') a b = absurd b
  take_off-IsBeside g fs (refused e) not_found a b = absurd b
  take_off-IsBeside g fs (refused e) integrity_violation a b = absurd b

  pub land-IsBeside :
      (n : ℕ) (now : Time) (res : Response) (g : Gateway) (fs : List Flight) (o o' : Option Flight)
      → AllAlike g.flights fs
      → AlikeAt o o'
      → IsBeside
          (land sha256 get set set_url cfg o n now res g)
          (land sha256 get set set_url cfg o' n now res (beside rename g fs))
  unfolding land
  land-IsBeside n now res g fs none none a b = (fs, refl, a)
  land-IsBeside n now res g fs (some f) (some f') a b = (
    without n fs,
    ap
        (λ o. record {
          store = renamed_store rename g.store;
          backend = settle get o g.backend;
          flights = without n fs;
        })
        (outcome-blind get f f' now res b),
    AllAlike-without n g.flights fs a,
  )
  land-IsBeside n now res g fs none (some f') a b = absurd b
  land-IsBeside n now res g fs (some f) none a b = absurd b
