-- ===== src/Agent/Independent.antt =====
-- The totals of payloads that differ in deltas.
use symphony_python.Prelude.{
  ◌≡◌, refl, true, false, not, Option, none, some, List, [], ◌∷◌, arith, all, first_some,
}
use symphony_python.Text.{Text, text_eq}
use symphony_python.Dict.{member}
use symphony_python.Json.{Float, Fields}
use symphony_python.Agent.Payload.{delta_usage_keys}
use symphony_python.Agent.Usage.{
  usage_container_keys, input_fields, output_fields, total_fields, absolute_in,
  is_token_usage_event, has_count_fields, folded_get, mapping_of, container_in, usage_container,
  event_container, select_absolute_usage, first_count, read_token_counts, counts_of,
  extract_token_totals,
}
use symphony_python.Agent.Deltas.{
  DiffersInDeltas, Both, Both-or_else, Both-if, Both-first_some, Nodes-iter_nodes,
  absolute_in-DiffersInDeltas, envelopes-DiffersInDeltas, usage_event-DiffersInDeltas,
  has_count_fields-DiffersInDeltas, mapping_alike, count_alike, folded_get-DiffersInDeltas,
}

first_known :
    (n : Text) (ns : List Text)
    → all (λ t. not (member t delta_usage_keys)) (n ∷ ns) ≡ true
    → (member n delta_usage_keys ≡ false) × (all (λ t. not (member t delta_usage_keys)) ns ≡ true)
unfolding all
first_known n ns h = ground arith

names_DiffersInDeltas :
    {fs gs : Fields} (ns : List Text)
    → all (λ t. not (member t delta_usage_keys)) ns ≡ true
    → DiffersInDeltas fs gs
    → Both DiffersInDeltas
        (first_some (λ name. mapping_of (folded_get name fs)) ns)
        (first_some (λ name. mapping_of (folded_get name gs)) ns)
unfolding first_some
names_DiffersInDeltas [] h d = tt
names_DiffersInDeltas (n ∷ ns) h d =
    let (known, rest) = first_known n ns h in
    Both-or_else DiffersInDeltas _ _ _ _ (mapping_alike _ _ (folded_get-DiffersInDeltas n known d))
      (names_DiffersInDeltas ns rest d)

container_in-DiffersInDeltas :
    (fs gs : Fields)
    → DiffersInDeltas fs gs
    → Both DiffersInDeltas (container_in fs) (container_in gs)
unfolding container_in all member text_eq
container_in-DiffersInDeltas fs gs d =
    Both-or_else DiffersInDeltas _ _ _ _ (names_DiffersInDeltas usage_container_keys refl d) (
      rw (has_count_fields-DiffersInDeltas d)
        (Both-if DiffersInDeltas (has_count_fields gs) (some fs) (some gs) d))

usage_container-DiffersInDeltas :
    (fs gs : Fields)
    → DiffersInDeltas fs gs
    → Both DiffersInDeltas (usage_container fs) (usage_container gs)
unfolding usage_container
usage_container-DiffersInDeltas fs gs d =
    Both-first_some container_in container_in-DiffersInDeltas _ _ (d, envelopes-DiffersInDeltas d)

event_container-DiffersInDeltas :
    (fs gs : Fields)
    → DiffersInDeltas fs gs
    → Both DiffersInDeltas (event_container fs) (event_container gs)
event_container-DiffersInDeltas fs gs d = rw (usage_event-DiffersInDeltas d) (
    Both-if DiffersInDeltas (is_token_usage_event gs) _ _ (usage_container-DiffersInDeltas fs gs d))

select-DiffersInDeltas :
    {fs gs : Fields}
    → DiffersInDeltas fs gs
    → Both DiffersInDeltas (select_absolute_usage fs) (select_absolute_usage gs)
unfolding select_absolute_usage
select-DiffersInDeltas d =
    Both-or_else DiffersInDeltas _ _ _ _
      (Both-first_some absolute_in (λ x y e. absolute_in-DiffersInDeltas e) _ _
        (Nodes-iter_nodes d))
      (Both-first_some event_container event_container-DiffersInDeltas _ _ (Nodes-iter_nodes d))

module _ (parse_float : Text → Option Float) where
  first_count-DiffersInDeltas :
      {fs gs : Fields} (ns : List Text)
      → all (λ t. not (member t delta_usage_keys)) ns ≡ true
      → DiffersInDeltas fs gs
      → first_count parse_float ns fs ≡ first_count parse_float ns gs
  unfolding first_count first_some
  first_count-DiffersInDeltas [] h d = refl
  first_count-DiffersInDeltas (n ∷ ns) h d =
      let (known, rest) = first_known n ns h in
      rw
        (
          count_alike parse_float _ _ (folded_get-DiffersInDeltas n known d),
          first_count-DiffersInDeltas ns rest d,
        )
        refl

  read-DiffersInDeltas :
      {fs gs : Fields}
      → DiffersInDeltas fs gs
      → read_token_counts parse_float fs ≡ read_token_counts parse_float gs
  unfolding read_token_counts all member text_eq
  read-DiffersInDeltas d =
      rw
        (
          first_count-DiffersInDeltas input_fields refl d,
          first_count-DiffersInDeltas output_fields refl d,
          first_count-DiffersInDeltas total_fields refl d,
        )
        refl

  counts-DiffersInDeltas :
      (a b : Option Fields)
      → Both DiffersInDeltas a b
      → counts_of parse_float a ≡ counts_of parse_float b
  counts-DiffersInDeltas none none p = refl
  counts-DiffersInDeltas none (some b) p = elim p [ ]
  counts-DiffersInDeltas (some a) none p = elim p [ ]
  counts-DiffersInDeltas (some a) (some b) p = read-DiffersInDeltas p

  -- Payloads that differ only in what stands under per-turn keys, at any depth, have the same
  -- absolute totals.
  pub extract_token_totals-DiffersInDeltas :
      (fs gs : Fields)
      → DiffersInDeltas fs gs
      → extract_token_totals parse_float fs ≡ extract_token_totals parse_float gs
  unfolding extract_token_totals
  extract_token_totals-DiffersInDeltas fs gs d =
      counts-DiffersInDeltas _ _ (select-DiffersInDeltas d)
