-- ===== src/Tests/Blind.antt =====
-- A key that is issued, used and paid for, under its own name and under another one.
use ai_local.Prelude.{
  Bool-cases, List, Text, [], ap, arith, codes, false, if◌then◌else◌, inl, inr, map, refl, sym,
  text_eq, text_eq_iff, trim_space, ◌∙◌, ◌∷◌, ◌≡◌,
}
use ai_local.Gateway.{GatewayEvent, answered, arrived, init_services, worked, Gateway}
use ai_local.Gateway.Blind.{course, course_blind}
use ai_local.Gateway.Beside.{AllAlike, rename_event}
use ai_local.Keystore.Renamed.{IsRenaming, renamed_store}
use ai_local.Tests.Gateway.{
  arrival, config, digest, issue, no_faults, no_json, noon, openai, target, unchanged,
}
use ai_local.Usage.Tables.{empty_database}
use ai_local.Usage.Worker.{take_record}
use ai_local.Proxy.Rewrite.{bytes}

abbrev swap : Text → Text
swap k =
    if text_eq k (codes "sk-real")
    then codes "sk-other"
    else if text_eq k (codes "sk-other")
    then codes "sk-real"
    else k

swap_twice : (k : Text) → swap (swap k) ≡ k
unfolding text_eq
swap_twice k = ground (arith, text_eq_iff k (codes "sk-real"), text_eq_iff k (codes "sk-other"))

blank_swapped : (k : Text) → text_eq (trim_space (swap k)) [] ≡ text_eq (trim_space k) []
unfolding trim_space text_eq
blank_swapped k = elim (Bool-cases (text_eq k (codes "sk-real"))) [
  | inl e ↦ rw ((text_eq_iff k (codes "sk-real")).0 e) refl
  | inr e ↦ elim (Bool-cases (text_eq k (codes "sk-other"))) [
    | inl q ↦ rw ((text_eq_iff k (codes "sk-other")).0 q) refl
    | inr q ↦ rw (e, q) refl
  ]
]

swap-IsRenaming : IsRenaming swap
swap-IsRenaming = record {
  injective = λ k j e. sym (swap_twice k) ∙ ap swap e ∙ swap_twice j;
  blank = blank_swapped;
}

abbrev a_request : List GatewayEvent
a_request =
    issue
    ∷ arrived false false noon openai target arrival
    ∷ answered 0 noon (record { status = 200; body = bytes (codes "{}") })
    ∷ worked (take_record no_faults noon [])
    ∷ []

abbrev after : List GatewayEvent → Gateway
after es = course digest no_json unchanged (λ t o. t) config es (init_services empty_database)

course_blind_example :
    ((after (map (rename_event swap) a_request)).store ≡ renamed_store swap (after a_request).store)
    × ((after (map (rename_event swap) a_request)).backend ≡ (after a_request).backend)
    × AllAlike (after a_request).flights (after (map (rename_event swap) a_request)).flights
course_blind_example =
    course_blind digest no_json unchanged (λ t o. t) config swap swap-IsRenaming a_request
      empty_database
