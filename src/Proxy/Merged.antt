-- ===== src/Proxy/Merged.antt =====
-- What the merging of request options in internal/proxy/proxy.go leaves of a body.
use mathlib.Core.Path.{subst}
use ai_local.Prelude.{
  All, List, Map, Memᴰ, Text, [], ap, arith, length, refl, some, sym, true, ◌++◌, ◌∙◌, ◌∷◌, ◌≡◌,
}
use ai_local.Apml.{OptionValue, ProviderConfig, StreamingConfig}
use ai_local.Json.{JsonGet, JsonResult}
use ai_local.Proxy.Rewrite.{
  JsonSet, Outgoing, bytes, rewrite_body, execute_merge_options_inline, is_streaming, merge_block,
  merge_each, merge_for, merge_option,
}

-- What gjson and sjson promise of each other, of a path that can be set in a body: what is set there
-- is read there; and what is read at a path apart from it does not change, nor whether that path can
-- be set.
pub record IsJson (get : JsonGet) (set : JsonSet) (IsSettable : Text → Text → Type 0)
    (value : Text → JsonResult) (Apart : Text → Text → Type 0) : Type 0 where
  pub reads :
      (body path val : Text) → IsSettable body path → get (set body path val) path ≡ value val
  pub keeps :
      (body path val other : Text)
      → IsSettable body path
      → Apart path other
      → get (set body path val) other ≡ get body other
  pub stays :
      (body path val other : Text)
      → IsSettable body path
      → Apart path other
      → IsSettable body other
      → IsSettable (set body path val) other
  pub symmetric : (path other : Text) → Apart path other → Apart other path

abbrev pub block_leaves : Text → List (Text × Text) → List (Text × Text)
block_leaves top_key [] = []
block_leaves top_key ((sub_key, val) ∷ rest) =
    (top_key ++ b'.' ∷ sub_key, val) ∷ block_leaves top_key rest

abbrev pub option_leaves : Text → OptionValue → List (Text × Text)
option_leaves top_key (OptionValue.block entries) = block_leaves top_key entries
option_leaves top_key (OptionValue.plain val) = (top_key, val) ∷ []

-- The paths that the options set, with their values, in the order of the iteration.
abbrev pub leaves : Map OptionValue → List (Text × Text)
leaves [] = []
leaves ((top_key, val) ∷ rest) = option_leaves top_key val ++ leaves rest

module _ (get : JsonGet) (set : JsonSet) where
  abbrev set_all : List (Text × Text) → Text → Text
  set_all [] body = body
  set_all ((path, val) ∷ rest) body = set_all rest (set body path val)

  set_all-append :
      (xs ys : List (Text × Text)) (body : Text)
      → set_all (xs ++ ys) body ≡ set_all ys (set_all xs body)
  set_all-append [] ys body = refl
  set_all-append ((path, val) ∷ xs) ys body = set_all-append xs ys (set body path val)

  merge_block-set_all :
      (top_key : Text) (entries : List (Text × Text)) (body : Text)
      → merge_block get set top_key entries body ≡ set_all (block_leaves top_key entries) body
  unfolding merge_block
  merge_block-set_all top_key [] body = refl
  merge_block-set_all top_key ((sub_key, val) ∷ entries) body =
      merge_block-set_all top_key entries (set body (top_key ++ b'.' ∷ sub_key) val)

  merge_option-set_all :
      (top_key : Text) (val : OptionValue) (body : Text)
      → merge_option get set top_key val body ≡ set_all (option_leaves top_key val) body
  unfolding merge_option
  merge_option-set_all top_key (OptionValue.block entries) body =
      merge_block-set_all top_key entries body
  merge_option-set_all top_key (OptionValue.plain val) body = refl

  merge_each-set_all :
      (opts : Map OptionValue) (body : Text)
      → merge_each get set opts body ≡ set_all (leaves opts) body
  unfolding merge_each
  merge_each-set_all [] body = refl
  merge_each-set_all ((top_key, val) ∷ opts) body =
      ap (merge_each get set opts) (merge_option-set_all top_key val body)
      ∙ merge_each-set_all opts (set_all (option_leaves top_key val) body)
      ∙ sym (set_all-append (option_leaves top_key val) (leaves opts) body)

  module _ (IsSettable : Text → Text → Type 0) (value : Text → JsonResult)
      (Apart : Text → Text → Type 0) (j : IsJson get set IsSettable value Apart) where
    -- Each path of the list can be set in the body.
    abbrev pub AllSettable : Text → List (Text × Text) → Type 0
    AllSettable body xs = All (λ (x : Text × Text). IsSettable body x.0) xs

    -- Each path of the list is apart from another path.
    abbrev pub AllBeside : List (Text × Text) → Text → Type 0
    AllBeside xs other = All (λ (x : Text × Text). Apart x.0 other) xs

    -- No path of the list lies in the way of one that stands behind it or before it.
    abbrev pub AllApart : List (Text × Text) → Type 0
    AllApart [] = Unit {0}
    AllApart ((path, val) ∷ xs) = AllBeside xs path × AllApart xs

    settable_behind :
        (body path val : Text) (xs : List (Text × Text))
        → IsSettable body path
        → AllBeside xs path
        → AllSettable body xs
        → AllSettable (set body path val) xs
    settable_behind body path val [] o away h = tt
    settable_behind body path val ((p, v) ∷ xs) o away h = (
      j.stays body path val p o (j.symmetric p path away.0) h.0,
      settable_behind body path val xs o away.1 h.1,
    )

    set_all_keeps :
        (xs : List (Text × Text)) (body other : Text)
        → AllSettable body xs
        → AllApart xs
        → AllBeside xs other
        → get (set_all xs body) other ≡ get body other
    set_all_keeps [] body other o apart h = refl
    set_all_keeps ((path, val) ∷ xs) body other o apart h =
        set_all_keeps xs (set body path val) other
          (settable_behind body path val xs o.0 apart.0 o.1) apart.1 h.1
        ∙ j.keeps body path val other o.0 h.0

    set_all_reads :
        (xs : List (Text × Text)) (body path val : Text)
        → AllSettable body xs
        → AllApart xs
        → Memᴰ (path, val) xs
        → get (set_all xs body) path ≡ value val
    set_all_reads [] body path val o h m = elim m [ ]
    set_all_reads ((p, v) ∷ xs) body path val o h (Memᴰ.tail m) =
        set_all_reads xs (set body p v) path val (settable_behind body p v xs o.0 h.0 o.1) h.1 m
    set_all_reads ((p, v) ∷ xs) body path val o h (Memᴰ.head e) =
        subst (λ (x : Text × Text). get (set_all ((p, v) ∷ xs) body) x.0 ≡ value x.1) (sym e)
          (set_all_keeps xs (set body p v) p (settable_behind body p v xs o.0 h.0 o.1) h.1 h.0
            ∙ j.reads body p v o.0)

    -- In a streaming request the field `stream` is there, so that it is not set.
    merge_for_streaming :
        (s : StreamingConfig) (body : Text)
        → is_streaming get set body ≡ true
        → merge_for get set (some s) body ≡ set_all (leaves s.request_option) body
    unfolding merge_for execute_merge_options_inline is_streaming
    merge_for_streaming s body h = ground (arith, merge_each-set_all s.request_option body)

    -- Where the configured paths can be set in the body and are apart from each other, a streaming
    -- request goes upstream with each configured option at its path and with every value that it
    -- had at a path apart from these, whatever the order in which the options are visited; and the
    -- length that is announced is the body's.
    pub rewrite_body_merges :
        (host path val other body : Text) (provider : ProviderConfig) (s : StreamingConfig)
        (out : Outgoing)
        → provider.streaming ≡ some s
        → is_streaming get set body ≡ true
        → AllSettable body (leaves s.request_option)
        → AllApart (leaves s.request_option)
        → Memᴰ (path, val) (leaves s.request_option)
        → AllBeside (leaves s.request_option) other
        → (merged : Text) × (((rewrite_body get set host provider (bytes body) out).0.body
              ≡ bytes merged)
            × ((rewrite_body get set host provider (bytes body) out).0.content_length
                ≡ length merged)
            × (get merged path ≡ value val)
            × (get merged other ≡ get body other))
    unfolding rewrite_body
    rewrite_body_merges host path val other body provider s out e h o apart m away =
        let xs = leaves s.request_option in
        let merged : merge_for get set provider.streaming body ≡ set_all xs body =
          ap (λ c. merge_for get set c body) e ∙ merge_for_streaming s body h in
        (
          merge_for get set provider.streaming body,
          (
            refl,
            refl,
            ap (λ b. get b path) merged ∙ set_all_reads xs body path val o apart m,
            ap (λ b. get b other) merged ∙ set_all_keeps xs body other o apart away,
          ),
        )
