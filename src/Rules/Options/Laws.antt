-- ===== src/Rules/Options/Laws.antt =====
-- The options that the form of a rule offers (web/app.js: `channelOptionEntries`,
-- `categoryOptionEntries`).
use strata_pvr.Base.{
  String, Bool, true, false, not, ◌&&◌, ◌||◌, List, [], ◌∷◌, ◌++◌, ◌==◌, ◌⧺◌, ◌or◌, truthy, map,
  member, seen_in, any, filter, is_inherited, is_distinct, is_distinct-concat, member-append,
  eq_iff, ◌≡◌, refl, ap, ◌∙◌, inl, inr, Bool-cases, arith,
}
use strata_pvr.Guide.Channels.{Entry, schedule_channel_id, schedule_channel_name}
use strata_pvr.Rules.Options.{
  Scheduled, Option', ids, with_option, add_channels, add_missing, channel_option_entries,
}

ids-concat :
    (entries : List Option') (o : Option') → ids (entries ++ o ∷ []) ≡ ids entries ++ o.0 ∷ []
ids-concat [] o = refl
ids-concat (e ∷ entries) o = ap (e.0 ∷◌) (ids-concat entries o)

with_option-is_distinct :
    (id name : String) (entries : List Option')
    → is_distinct (ids entries) ≡ true
    → is_distinct (ids (with_option id name entries)) ≡ true
unfolding with_option
with_option-is_distinct id name entries d =
    elim (Bool-cases (not (truthy id) || seen_in id (ids entries))) [
      | inl e ↦ rw e d
      | inr e ↦
          rw (e, ids-concat entries (id, name))
            (is_distinct-concat (ids entries) id d (ground (arith, e)))
    ]

-- What is offered stays so, and a new id is offered unless it is empty or an inherited name.
member-with_option :
    (k id name : String) (entries : List Option')
    → truthy k ≡ true
    → is_inherited k ≡ false
    → member k (ids (with_option id name entries)) ≡ (member k (ids entries) || id == k)
unfolding with_option
member-with_option k id name entries t n =
    elim (Bool-cases (not (truthy id) || seen_in id (ids entries))) [
      | inl e ↦ rw e (ground (arith, e, t, n, eq_iff id k))
      | inr e ↦
          rw (e, ids-concat entries (id, name), member-append k (ids entries) (id ∷ []))
            (ground arith)
    ]

add_channels-is_distinct :
    (cs : List Entry) (entries : List Option')
    → is_distinct (ids entries) ≡ true
    → is_distinct (ids (add_channels cs entries)) ≡ true
add_channels-is_distinct [] entries d = d
add_channels-is_distinct (c ∷ cs) entries d =
    add_channels-is_distinct cs _ (with_option-is_distinct (schedule_channel_id c) _ entries d)

add_missing-is_distinct :
    (extra : List String) (entries : List Option')
    → is_distinct (ids entries) ≡ true
    → is_distinct (ids (add_missing extra entries)) ≡ true
add_missing-is_distinct [] entries d = d
add_missing-is_distinct (id ∷ extra) entries d =
    add_missing-is_distinct extra _ (with_option-is_distinct id _ entries d)

abbrev pub has_channel : String → List Entry → Bool
has_channel k = any (λ c. schedule_channel_id c == k)

module _ (k : String) (t : truthy k ≡ true) (n : is_inherited k ≡ false) where
  member-add_channels :
      (cs : List Entry) (entries : List Option')
      → member k (ids (add_channels cs entries)) ≡ (member k (ids entries) || has_channel k cs)
  member-add_channels [] entries = ground arith
  member-add_channels (c ∷ cs) entries =
      let name = schedule_channel_name c or schedule_channel_id c in
      member-add_channels cs (with_option (schedule_channel_id c) name entries)
      ∙ ground (arith, member-with_option k (schedule_channel_id c) name entries t n)

  member-add_missing :
      (extra : List String) (entries : List Option')
      → member k (ids (add_missing extra entries)) ≡ (member k (ids entries) || member k extra)
  member-add_missing [] entries = ground arith
  member-add_missing (id ∷ extra) entries =
      let name = id ⧺ "（現在の番組表にありません）" in
      member-add_missing extra (with_option id name entries)
      ∙ ground (arith, member-with_option k id name entries t n)

-- The list of channels offers each id once; an id that is not empty and no inherited name is offered
-- exactly if a channel of the guide or of the source has it, or if it is one of the extra values.
pub channel_option_entries_lem :
    (schedule : List Scheduled) (extra : List String) (source : List Entry) (k : String)
    → truthy k ≡ true
    → is_inherited k ≡ false
    → (is_distinct (ids (channel_option_entries schedule extra source)) ≡ true)
      × (member k (ids (channel_option_entries schedule extra source)) ≡ (
          has_channel k (map (λ s. s.entry) schedule) || (has_channel k source || member k extra)))
unfolding channel_option_entries
channel_option_entries_lem schedule extra source k t n =
    let listed = map (λ s. s.entry) schedule in
    (
      add_missing-is_distinct extra _
          (add_channels-is_distinct source _ (add_channels-is_distinct listed [] refl)),
      ground (
        arith,
        member-add_missing k t n extra (add_channels source (add_channels listed [])),
        member-add_channels k t n source (add_channels listed []),
        member-add_channels k t n listed [],
      ),
    )

pub member-filter :
    (k : String) (p : String → Bool) (xs : List String)
    → member k (filter p xs) ≡ (member k xs && p k)
member-filter k p [] = refl
member-filter k p (x ∷ xs) = elim (Bool-cases (x == k)) [
  | inl e ↦ ground (arith, member-filter k p xs, ap p ((eq_iff x k).0 e), e)
  | inr e ↦ ground (arith, member-filter k p xs, e)
]
