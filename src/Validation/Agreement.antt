-- ===== src/Validation/Agreement.antt =====
-- crates/agc-validation/src/lib.rs, `compare_yaagc_reference`: what an equivalent report says.
use apollo_rs.Prelude.{
  ℕ, ◌+◌, ◌≡◌, refl, arith, sym, ◌∙◌, ◌↔◌, Bool, true, false, List, [], ◌∷◌, Option, some, none,
  Option-cases, inl, inr, ◌⊎◌, length, if◌then◌else◌, leb,
}
use apollo_rs.Trace.{TraceEvent}
use apollo_rs.Validation.Compare.{Divergence, is_none}
use apollo_rs.Validation.Reference.{
  YaAgcReferenceEvent, compare_yaagc_event, match_events, or_prefix, compare_yaagc_reference,
}
use apollo_rs.Validation.Rows.{Agrees, compare_yaagc_event-Agrees}

-- The shorter stream agrees with the beginning of the other.
abbrev pub AgreeThrough : List TraceEvent → List YaAgcReferenceEvent → Type 0
AgreeThrough [] rs = Unit
AgreeThrough (l ∷ ls) [] = Unit
AgreeThrough (l ∷ ls) (r ∷ rs) = Agrees l r × AgreeThrough ls rs

match_events-AgreeThrough :
    (matched : ℕ) (ls : List TraceEvent) (rs : List YaAgcReferenceEvent)
    → ((match_events matched ls rs).1 ≡ none) ↔ AgreeThrough ls rs
unfolding match_events
match_events-AgreeThrough matched [] rs = (λ h. tt, λ h. refl)
match_events-AgreeThrough matched (l ∷ ls) [] = (λ h. tt, λ h. refl)
match_events-AgreeThrough matched (l ∷ ls) (r ∷ rs) =
    let event = compare_yaagc_event-Agrees l r matched in
    let rest = match_events-AgreeThrough (matched + 1) ls rs in
    elim (Option-cases (compare_yaagc_event matched l r)) [
      | inl e ↦
          (λ h. (event.0 e, rest.0 (ground (arith, e, h))), λ h. ground (arith, e, rest.1 h.1))
      | inr (d, e) ↦ (
        λ h. absurd (ground (arith, e, h)),
        λ h. absurd (let clash : none ≡ some d = sym (event.1 h.0) ∙ e in ground arith),
      )
    ]

-- Where no event diverges, all of the shorter stream is matched.
match_events-matched :
    (matched : ℕ) (ls : List TraceEvent) (rs : List YaAgcReferenceEvent)
    → (match_events matched ls rs).1 ≡ none
    → (match_events matched ls rs).0
      ≡ matched + (if leb (length ls) (length rs) then length ls else length rs)
unfolding match_events
match_events-matched matched [] rs h = ground arith
match_events-matched matched (l ∷ ls) [] h = ground arith
match_events-matched matched (l ∷ ls) (r ∷ rs) h =
    elim (Option-cases (compare_yaagc_event matched l r)) [
      | inl e ↦
          let rest = match_events-matched (matched + 1) ls rs (ground (arith, e, h)) in
          ground (arith, e, rest)
      | inr (d, e) ↦ absurd (ground (arith, e, h))
    ]

or_prefix_iff :
    (d : Option Divergence) (allow : Bool) (matched m n : ℕ)
    → (d ≡ none → matched ≡ (if leb m n then m else n))
    → (or_prefix d allow matched m n ≡ none) ↔ ((d ≡ none) × ((allow ≡ true) ⊎ (m ≡ n)))
unfolding or_prefix
or_prefix_iff (some d) allow matched m n h = (λ e. ground (arith, e), λ k. ground (arith, k.0))
or_prefix_iff none true matched m n h = (λ e. (refl, inl refl), λ k. ground (arith, h refl))
or_prefix_iff none false matched m n h = (
  λ e. (refl, inr (ground (arith, e))),
  λ k. elim (k.1) [ inl f ↦ absurd (ground (arith, f)) | inr f ↦ ground (arith, f) ],
)

is_none_iff : (d : Option Divergence) → (is_none d ≡ true) ↔ (d ≡ none)
is_none_iff none = (λ _. refl, λ _. refl)
is_none_iff (some d) = (λ e. absurd (ground (arith, e)), λ e. absurd (ground (arith, e)))

-- The report of a comparison with a reference says that the two are equivalent exactly when each
-- event of the shorter stream agrees with that of the other, and a prefix is allowed or the streams
-- have the same length. An event agrees with a row of an instruction if it is an instruction that
-- ends at the cycle of the row, has its address and the low 15 bits of its word, and the registers
-- before it are those of the row. It agrees with a row of an interrupt entry if it is an entry that
-- ends one cycle after that of the row, has its address and the low 15 bits of its word, the
-- registers after it are those of the row, and the first interrupt it enters has the number and
-- vector of the row, or it enters none where the row lacks one of the two.
pub compare_yaagc_reference-AgreeThrough :
    (ls : List TraceEvent) (rs : List YaAgcReferenceEvent) (allow_stream_prefix : Bool)
    → ((compare_yaagc_reference ls rs allow_stream_prefix).equivalent ≡ true)
      ↔ (AgreeThrough ls rs × ((allow_stream_prefix ≡ true) ⊎ (length ls ≡ length rs)))
unfolding compare_yaagc_reference
compare_yaagc_reference-AgreeThrough ls rs allow =
    let all = match_events-AgreeThrough 0 ls rs in
    let matched = match_events 0 ls rs in
    let both =
      or_prefix_iff matched.1 allow matched.0 (length ls) (length rs)
        (λ e. omega (arith, match_events-matched 0 ls rs e)) in
    let none_left = is_none_iff (or_prefix matched.1 allow matched.0 (length ls) (length rs)) in
    (
      λ h. let k = both.0 (none_left.0 h) in (all.0 k.0, k.1),
      λ h. none_left.1 (both.1 (all.1 h.0, h.1)),
    )
