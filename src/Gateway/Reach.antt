-- ===== src/Gateway/Reach.antt =====
-- The gateway over any course of events.
use ai_local.Prelude.{
  All, All-append, All-map, List, Memᴰ, Memᴰ-left, Memᴰ-right, Option, Text, [], inl, inr, none,
  refl, some, values, ℕ, ◌++◌, ◌∷◌, ◌≡◌, ◌⊎◌,
}
use ai_local.Apml.{ApmlConfig}
use ai_local.Json.{JsonGet}
use ai_local.Keystore.{KeyRecord, list_keys, new_store}
use ai_local.Keystore.Invariant.{
  IsConsistent, IsFresh, add_key-IsConsistent, delete_key-IsConsistent, new_store-IsConsistent,
}
use ai_local.Usage.Tables.{Database, LogRow, Record, Time}
use ai_local.Usage.Worker.{UsageBackend, close_done, new_usage_backend, start_worker, step}
use ai_local.Admin.{serve_delete_key}
use ai_local.Admin.Managed.{serve_add_key_cases, key_added, key_deleted}
use ai_local.Proxy.Rewrite.{Url, JsonSet}
use ai_local.Proxy.Serve.{Flight, Served, forwarded, integrity_violation, not_found, refused}
use ai_local.Gateway.{
  Gateway, GatewayEvent, key_added, key_deleted, arrived, answered, failed, worked, stopped,
  take_off, land, gateway_step, init_services, at,
}
use ai_local.Gateway.Sound.{KeysApart, serve-IsCleared, modify_response-IsFor}
use ai_local.Gateway.Accounts.{
  All-without, All-at, round-IsPaidFor, settle-IsPaidFor, Vouched, IsCleared, IsPaid, IsPaidFor,
  IsAccounted,
}
use ai_local.Proxy.Respond.{Response, billed, modify_response}

module _ (sha256 : Text → List ℕ) (get : JsonGet) (set : JsonSet) (set_url : Url → Url → Url)
    (cfg : ApmlConfig) (before : Database) where
  abbrev after : GatewayEvent → Gateway → Gateway
  after e g = gateway_step sha256 get set set_url cfg e g

  -- What the sources of randomness give is new.
  abbrev pub IsFreshFor : GatewayEvent → Gateway → Type 0
  IsFreshFor (key_added id entropy req) g =
      (i : Text) (b : List ℕ) → id ≡ some i → entropy ≡ some b → IsFresh sha256 i b g.store
  IsFreshFor _ g = Unit {0}

  -- The gateways that a course of events leads to, with the keys that have been issued: a record
  -- that stands in the store at some time.
  pub data Reach : List KeyRecord → Gateway → Type 0 where
    opened : Reach [] (init_services before)
    next :
        {seen : List KeyRecord} {g : Gateway} (e : GatewayEvent)
        → IsFreshFor e g
        → Reach seen g
        → Reach
            (list_keys (gateway_step sha256 get set set_url cfg e g).store ++ seen)
            (gateway_step sha256 get set set_url cfg e g)

  module _ (more seen : List KeyRecord) where
    Vouched-more :
        (key path : Text) → Vouched sha256 seen key path → Vouched sha256 (more ++ seen) key path
    Vouched-more key path (r, m, v) = (r, Memᴰ-right r more seen m, v)

    IsCleared-more : (f : Flight) → IsCleared sha256 seen f → IsCleared sha256 (more ++ seen) f
    IsCleared-more f (r, m, v, k) = (r, Memᴰ-right r more seen m, v, k)

    IsPaid-more :
        (row : LogRow) → IsPaid sha256 before seen row → IsPaid sha256 before (more ++ seen) row
    IsPaid-more row (inl old) = inl old
    IsPaid-more row (inr v) = inr (Vouched-more row.local_key row.route_path v)

    IsPaidFor-more :
        (b : UsageBackend)
        → IsPaidFor sha256 before seen b
        → IsPaidFor sha256 before (more ++ seen) b
    IsPaidFor-more b h = record {
      queued = All-map _ _ (λ rec. Vouched-more rec.local_key rec.route_path) b.queue h.queued;
      logged = All-map _ _ IsPaid-more b.db.logs h.logged;
    }

  module _ (seen : List KeyRecord) where
    -- The accounts of a gateway, the store aside.
    abbrev Holds : Gateway → Type 0
    Holds g =
        IsConsistent sha256 g.store
        × All (IsCleared sha256 seen) g.flights
        × IsPaidFor sha256 before seen g.backend

    take_off-Holds :
        (s : Served) (g : Gateway)
        → ((f : Flight) → s ≡ forwarded f → IsCleared sha256 seen f)
        → Holds g
        → Holds (take_off s g)
    unfolding take_off
    take_off-Holds (forwarded f) g c (v, a, b) =
        (v, All-append (IsCleared sha256 seen) g.flights (f ∷ []) a (c f refl, tt), b)
    take_off-Holds not_found g c h = h
    take_off-Holds integrity_violation g c h = h
    take_off-Holds (refused r) g c h = h

    land-Holds :
        (o : Option Flight) (n : ℕ) (now : Time) (res : Response) (g : Gateway)
        → at n g.flights ≡ o
        → Holds g
        → Holds (land sha256 get set set_url cfg o n now res g)
    unfolding land
    land-Holds none n now res g e h = h
    land-Holds (some f) n now res g e (v, a, b) = (
      v,
      All-without (IsCleared sha256 seen) n g.flights a,
      settle-IsPaidFor sha256 before seen get
          (modify_response get f.provider f.session f.path now f.streaming res) g.backend
          (paid_by (All-at (IsCleared sha256 seen) n g.flights f a e)) b,
    )
      where
        paid_by :
            IsCleared sha256 seen f
            → (rec : Record)
            → modify_response get f.provider f.session f.path now f.streaming res ≡ billed rec
            → Vouched sha256 seen rec.local_key rec.route_path
        paid_by (r, m, v, k) rec e =
            let (key, route) =
              modify_response-IsFor get f.session f.path now f.provider f.streaming res rec e in
            (r, m, rw (key, route) v)

    step-Holds :
        (e : GatewayEvent) (g : Gateway)
        → KeysApart cfg
        → IsFreshFor e g
        → ((r : KeyRecord) → Memᴰ r (list_keys g.store) → Memᴰ r seen)
        → Holds g
        → Holds (after e g)
    unfolding gateway_step serve_delete_key step close_done
    step-Holds (key_added id entropy req) g apart fresh known (v, a, b) = (
      elim (serve_add_key_cases sha256 cfg id entropy req g.store) [
        | inl e ↦ rw e v
        | inr (c, p, q, e) ↦ rw e (
            add_key-IsConsistent sha256 id entropy req.route req.real_key req.alias g.store fresh v)
      ],
      a,
      b,
    )
    step-Holds (key_deleted uid) g apart fresh known (v, a, b) =
        (delete_key-IsConsistent sha256 uid g.store v, a, b)
    step-Holds (arrived daily_fails monthly_fails now path target a) g apart fresh known h =
        take_off-Holds _ g
          (λ f e.
            serve-IsCleared sha256 get set set_url cfg seen daily_fails monthly_fails now g.store
              g.backend.db path target a f apart h.0 known e)
          h
    step-Holds (answered n now res) g apart fresh known h =
        land-Holds (at n g.flights) n now res g refl h
    step-Holds (failed n) g apart fresh known (v, a, b) =
        (v, All-without (IsCleared sha256 seen) n g.flights a, b)
    step-Holds (worked pick) g apart fresh known (v, a, b) = (
      v,
      a,
      round-IsPaidFor sha256 before seen g.backend.worker pick g.backend.queue g.backend b.queued b,
    )
    step-Holds stopped g apart fresh known (v, a, b) =
        (v, a, record { queued = b.queued; logged = b.logged })

  -- If no provider takes its key in one of the four headers that go with the body, then in any course
  -- of events from the start on, each request that is sent upstream carries, as the only value of
  -- the header that its provider asks for, the upstream key of a record that was issued for its
  -- route, to a local key with the hash of the one that the request came with; and every record of usage, in the queue or in the audit log, names
  -- a route and a local key with the hash of one that was issued for the route, but for the rows
  -- that stood in the log before.
  pub Reach-IsAccounted :
      {seen : List KeyRecord} {g : Gateway}
      → KeysApart cfg
      → Reach seen g
      → IsAccounted sha256 before seen g
  unfolding init_services new_store new_usage_backend start_worker list_keys values
  Reach-IsAccounted apart opened = record {
    consistent = new_store-IsConsistent sha256;
    stored = λ r m. m;
    flying = tt;
    paid = record { queued = tt; logged = all_old before.logs before.logs (λ x m. m) };
  }
    where
      all_old :
          (rows all : List LogRow)
          → ((x : LogRow) → Memᴰ x rows → Memᴰ x all)
          → All
              (λ (row : LogRow). Memᴰ row all ⊎ Vouched sha256 [] row.local_key row.route_path)
              rows
      all_old [] all f = tt
      all_old (x ∷ rows) all f =
          (inl (f x (Memᴰ.head refl)), all_old rows all (λ y m. f y (Memᴰ.tail m)))
  Reach-IsAccounted apart (next {seen} {g} e fresh r) =
      let h = Reach-IsAccounted apart r in
      let more = list_keys (after e g).store in
      let (v, a, b) =
        step-Holds (more ++ seen) e g apart fresh (λ x m. Memᴰ-right x more seen (h.stored x m))
          (
            h.consistent,
            All-map _ _ (IsCleared-more more seen) g.flights h.flying,
            IsPaidFor-more more seen g.backend h.paid,
          ) in
      record { consistent = v; stored = λ x m. Memᴰ-left x more seen m; flying = a; paid = b }
