-- ===== src/Gateway/Accounts.antt =====
-- Who pays: what is sent upstream and what the ledger says rests on keys that were issued.
use mathlib.Core.Path.{subst}
use ai_local.Prelude.{
  All, All-append, Bool-cases, List, Memᴰ, Text, [], arith, inl, inr, length, ltb, refl, some, suc,
  sym, zero, ℕ, ◌∷◌, ◌≡◌, ◌⊎◌,
}
use ai_local.Keystore.{KeyRecord, hash_internal_key, list_keys}
use ai_local.Keystore.Invariant.{IsConsistent}
use ai_local.Usage.Tables.{Database, LogRow, Record, Time}
use ai_local.Proxy.Headers.{header_values}
use ai_local.Proxy.Rewrite.{key_header, key_value}
use ai_local.Proxy.Serve.{Flight}
use ai_local.Gateway.{Gateway, at, without}
use ai_local.Usage.Worker.{
  UsageBackend, emit_non_blocking, round, Pick, WorkerState, default_queue_size, draining, exited,
  not_started, running, see_done, take_record,
}
use ai_local.Usage.Write.{write_record, Faults, write_daily, write_log, write_monthly}
use ai_local.Json.{JsonGet}
use ai_local.Usage.Ledger.{execute_triple_write_atomic}
use ai_local.Proxy.Respond.{settle, Outcome, billed, panicked, passed}

module _ {A : Type 0} (P : A → Type 0) where
  pub All-without : (n : ℕ) (xs : List A) → All P xs → All P (without n xs)
  unfolding without
  All-without n [] h = tt
  All-without zero (x ∷ xs) h = h.1
  All-without (suc n) (x ∷ xs) h = (h.0, All-without n xs h.1)

  pub All-at : (n : ℕ) (xs : List A) (x : A) → All P xs → at n xs ≡ some x → P x
  unfolding at
  All-at n [] x h e = cc
  All-at zero (y ∷ xs) x h e = let same : y ≡ x = ground arith in rw (← same) h.0
  All-at (suc n) (y ∷ xs) x h e = All-at n xs x h.1 e

-- A key vouched for on a route: it has the hash of a key that was issued for the route.
abbrev pub Vouches : (Text → List ℕ) → Text → Text → KeyRecord → Type 0
Vouches sha256 key path r = (r.key_hash ≡ hash_internal_key sha256 key) × (r.route ≡ path)

abbrev pub Vouched : (Text → List ℕ) → List KeyRecord → Text → Text → Type 0
Vouched sha256 seen key path = (r : KeyRecord) × Memᴰ r seen × Vouches sha256 key path r

-- What goes upstream carries the upstream key of the record that vouches for it, and nothing else, in
-- the header that the provider asks for.
abbrev pub IsCleared : (Text → List ℕ) → List KeyRecord → Flight → Type 0
IsCleared sha256 seen f =
    (r : KeyRecord) × Memᴰ r seen
    × Vouches sha256 f.session.local_key f.path r
    × (header_values (key_header f.provider.api_key_prefix) f.sent.headers
        ≡ key_value f.provider.api_key_prefix r.real_key ∷ [])

module _ (sha256 : Text → List ℕ) (before : Database) where
  -- A row of the audit log is as old as the process, or a vouched key pays for it.
  abbrev pub IsPaid : List KeyRecord → LogRow → Type 0
  IsPaid seen row = Memᴰ row before.logs ⊎ Vouched sha256 seen row.local_key row.route_path

  -- A record that waits or is written is paid by a vouched key.
  pub record IsPaidFor (seen : List KeyRecord) (b : UsageBackend) : Type 0 where
    pub queued : All (λ (rec : Record). Vouched sha256 seen rec.local_key rec.route_path) b.queue
    pub logged : All (IsPaid seen) b.db.logs

  pub record IsAccounted (seen : List KeyRecord) (g : Gateway) : Type 0 where
    pub consistent : IsConsistent sha256 g.store
    pub stored : (r : KeyRecord) → Memᴰ r (list_keys g.store) → Memᴰ r seen
    pub flying : All (IsCleared sha256 seen) g.flights
    pub paid : IsPaidFor seen g.backend

  module _ (seen : List KeyRecord) where
    write_record-logged :
        (fault : Faults) (now : Time) (stamp : Text) (rec : Record) (db : Database)
        → Vouched sha256 seen rec.local_key rec.route_path
        → All (IsPaid seen) db.logs
        → All (IsPaid seen) (write_record fault now stamp rec db).logs
    unfolding write_record write_log write_daily write_monthly
    write_record-logged fault now stamp rec db v h =
        elim (execute_triple_write_atomic fault now stamp rec db) [
          | inl (s, p, e) ↦ rw (e, write_record) h
          | inr (p, e) ↦ rw (e, write_record) (inr v, h)
        ]

    emit-IsPaidFor :
        (rec : Record) (b : UsageBackend)
        → Vouched sha256 seen rec.local_key rec.route_path
        → IsPaidFor seen b
        → IsPaidFor seen (emit_non_blocking rec b)
    unfolding emit_non_blocking
    emit-IsPaidFor rec b v h = elim (Bool-cases (ltb (length b.queue) default_queue_size)) [
      | inl e ↦
          rw e (record {
            queued = All-append _ b.queue (rec ∷ []) h.queued (v, tt);
            logged = h.logged;
          })
      | inr e ↦ rw e (record { queued = h.queued; logged = h.logged })
    ]

    IsPaidFor-same :
        (b c : UsageBackend) → c.queue ≡ b.queue → c.db ≡ b.db → IsPaidFor seen b → IsPaidFor seen c
    IsPaidFor-same b c p q h = record {
      queued =
          subst (All (λ (rec : Record). Vouched sha256 seen rec.local_key rec.route_path)) (sym p)
            h.queued;
      logged = subst (λ (d : Database). All (IsPaid seen) d.logs) (sym q) h.logged;
    }

    pub round-IsPaidFor :
        (w : WorkerState) (p : Pick) (q : List Record) (b : UsageBackend)
        → All (λ (rec : Record). Vouched sha256 seen rec.local_key rec.route_path) q
        → IsPaidFor seen b
        → IsPaidFor seen (round w p q b)
    unfolding round
    round-IsPaidFor running (take_record fault now stamp) (rec ∷ queue) b a h = record {
      queued = a.1;
      logged = write_record-logged fault now stamp rec b.db a.0 h.logged;
    }
    round-IsPaidFor draining (take_record fault now stamp) (rec ∷ queue) b a h = record {
      queued = a.1;
      logged = write_record-logged fault now stamp rec b.db a.0 h.logged;
    }
    round-IsPaidFor running (take_record fault now stamp) [] b a h = h
    round-IsPaidFor running see_done q b a h =
        IsPaidFor-same b (round running see_done q b) (unfold round in ground arith)
          (unfold round in ground arith) h
    round-IsPaidFor draining (take_record fault now stamp) [] b a h = record {
      queued = h.queued;
      logged = h.logged;
    }
    round-IsPaidFor draining see_done q b a h = h
    round-IsPaidFor not_started p q b a h = h
    round-IsPaidFor exited p q b a h = h

    module _ (get : JsonGet) where
      pub settle-IsPaidFor :
          (o : Outcome) (b : UsageBackend)
          → ((rec : Record) → o ≡ billed rec → Vouched sha256 seen rec.local_key rec.route_path)
          → IsPaidFor seen b
          → IsPaidFor seen (settle get o b)
      unfolding settle
      settle-IsPaidFor panicked b v h = h
      settle-IsPaidFor passed b v h = h
      settle-IsPaidFor (billed rec) b v h = emit-IsPaidFor rec b (v rec refl) h
