-- ===== src/Knowledge/Cuts/Closest.antt =====
-- What the ladder finds: the closest cut of the first rung that has one in the window.
use whatsapp_os.Prelude.{
  ℕ, zero, suc, ◌+◌, ◌≤◌, ◌<◌, ◌≡◌, refl, min, Bool, true, false, ◌&&◌, ◌⊎◌, inl, inr, List, [],
  ◌∷◌, Option, none, some, length, leb, ◌==◌, arith, if◌then◌else◌, Bool-cases, Option-cases, ap,
  sym, ◌∙◌,
}
use mathlib.Core.Path.{subst}
use whatsapp_os.Knowledge.{Text, Unicode, Budget}
use whatsapp_os.Knowledge.Boundary.{is_safe_boundary}
use whatsapp_os.Knowledge.Cuts.{
  CutTest, Candidate, distance_to, is_no_further, separator_ladder, best_from, first_rung, find_cut,
}

module _ (unicode : Unicode) (text : Text) where
  -- A cut of one kind that splits no character.
  abbrev pub is_cut : CutTest → ℕ → Bool
  is_cut test index = test text index && is_safe_boundary unicode text index

  -- No cut of the kind in the window, and the cut that is closest to the target, the later of two.
  abbrev pub HasNone : CutTest → ℕ → ℕ → Type 0
  HasNone test lowest highest =
      (index : ℕ) → lowest ≤ index → index ≤ highest → is_cut test index ≡ false

  pub record IsClosest (test : CutTest) (target lowest highest cut : ℕ) : Type 0 where
    pub is_one : is_cut test cut ≡ true
    pub above : lowest ≤ cut
    pub below : cut ≤ highest
    pub closest :
        (index : ℕ)
        → lowest ≤ index
        → index ≤ highest
        → is_cut test index ≡ true
        → (distance_to target cut ≤ distance_to target index)
          × (distance_to target index ≡ distance_to target cut → index ≤ cut)

  -- Of the first kind that has a cut, the closest one; `none` is for no cut of any kind.
  abbrev pub IsFound : List CutTest → ℕ → ℕ → ℕ → Option ℕ → Type 0
  IsFound [] target lowest highest none = Unit {0}
  IsFound [] target lowest highest (some cut) = ⊥
  IsFound (test ∷ tests) target lowest highest none =
      HasNone test lowest highest × IsFound tests target lowest highest none
  IsFound (test ∷ tests) target lowest highest (some cut) =
      IsClosest test target lowest highest cut
      ⊎ (HasNone test lowest highest × IsFound tests target lowest highest (some cut))

  -- What a round knows of the positions before `index`.
  abbrev IsBestYet : CutTest → ℕ → ℕ → ℕ → Option Candidate → Type 0
  IsBestYet test target lowest index none = (i : ℕ) → lowest ≤ i → i < index → is_cut test i ≡ false
  IsBestYet test target lowest index (some best) =
      (is_cut test best.index ≡ true)
      × (lowest ≤ best.index)
      × (best.index < index)
      × (best.distance ≡ distance_to target best.index)
      × ((i : ℕ)
          → lowest ≤ i
          → i < index
          → is_cut test i ≡ true
          → (best.distance ≤ distance_to target i)
            × (distance_to target i ≡ best.distance → i ≤ best.index))

  abbrev better : CutTest → ℕ → ℕ → Option Candidate → Option Candidate
  better test target index best =
      if is_cut test index && is_no_further (distance_to target index) best
      then some (record { index = index; distance = distance_to target index })
      else best

  better-IsBestYet :
      (test : CutTest) (target lowest index : ℕ) (best : Option Candidate)
      → lowest ≤ index
      → IsBestYet test target lowest index best
      → IsBestYet test target lowest (suc index) (better test target index best)
  better-IsBestYet test target lowest index none low seen = elim (Bool-cases (is_cut test index)) [
    | inl cut ↦ rw cut (
        (
          cut,
          low,
          omega arith,
          refl,
          λ i from to is. elim (Bool-cases (i == index)) [
            | inl same ↦ let here : i ≡ index = ground arith in rw here (omega arith)
            | inr other ↦ let before = seen i from (ground arith) in cc
          ],
        ))
    | inr no_cut ↦ rw no_cut (λ i from to. elim (Bool-cases (i == index)) [
      | inl same ↦ let here : i ≡ index = ground arith in rw here no_cut
      | inr other ↦ seen i from (ground arith)
    ])
  ]
  better-IsBestYet test target lowest index (some best) low (is_one, above, below, far, closest) =
      elim (Bool-cases (is_cut test index && leb (distance_to target index) best.distance)) [
        | inl better ↦
            let cut : is_cut test index ≡ true = ground arith in
            let nearer : distance_to target index ≤ best.distance = ground arith in
            rw better (
              (
                cut,
                low,
                omega arith,
                refl,
                λ i from to is. elim (Bool-cases (i == index)) [
                  | inl same ↦ let here : i ≡ index = ground arith in rw here (omega arith)
                  | inr other ↦
                      let before = closest i from (ground arith) is in
                      (omega arith, λ equal. ground arith)
                ],
              ))
        | inr worse ↦ rw worse (
            (
              is_one,
              above,
              omega arith,
              far,
              λ i from to is. elim (Bool-cases (i == index)) [
                | inl same ↦
                    let here : i ≡ index = ground arith in
                    let cut : is_cut test index ≡ true = ap (is_cut test) (sym here) ∙ is in
                    let farther : leb (distance_to target index) best.distance ≡ false =
                      sym (rw cut refl) ∙ worse in
                    rw here (ground (arith, farther))
                | inr other ↦ closest i from (ground arith) is
              ],
            ))
      ]

  best_from-IsBestYet :
      (test : CutTest) (target lowest rounds index last : ℕ) (best : Option Candidate)
      → lowest ≤ index
      → rounds + index ≡ last
      → IsBestYet test target lowest index best
      → IsBestYet test target lowest last (best_from unicode test text target rounds index best)
  unfolding best_from
  best_from-IsBestYet test target lowest zero index last best low ends seen =
      subst (λ n. IsBestYet test target lowest n best) (omega arith) seen
  best_from-IsBestYet test target lowest (suc rounds) index last best low ends seen =
      best_from-IsBestYet test target lowest rounds (suc index) last (better test target index best)
        (omega arith) (omega arith) (better-IsBestYet test target lowest index best low seen)

  next_rung :
      (test : CutTest) (tests : List CutTest) (target lowest highest : ℕ) (found : Option ℕ)
      → HasNone test lowest highest
      → IsFound tests target lowest highest found
      → IsFound (test ∷ tests) target lowest highest found
  next_rung test tests target lowest highest none nothing rest = (nothing, rest)
  next_rung test tests target lowest highest (some cut) nothing rest = inr (nothing, rest)

  first_rung-IsFound :
      (tests : List CutTest) (target rounds lowest highest : ℕ)
      → rounds + lowest ≡ highest + 1
      → IsFound tests target lowest highest (first_rung unicode tests text target rounds lowest)
  unfolding first_rung
  first_rung-IsFound [] target rounds lowest highest window = tt
  first_rung-IsFound (test ∷ tests) target rounds lowest highest window =
      let result = best_from unicode test text target rounds lowest none in
      let seen : IsBestYet test target lowest (highest + 1) result =
        best_from-IsBestYet test target lowest rounds lowest (highest + 1) none (omega arith) window
          (λ i from to. absurd (omega arith)) in
      let rest = first_rung-IsFound tests target rounds lowest highest window in
      elim (Option-cases result) [
        | inl nothing ↦
            let unseen : IsBestYet test target lowest (highest + 1) none =
              subst (IsBestYet test target lowest (highest + 1)) nothing seen in
            let stepped : first_rung unicode (test ∷ tests) text target rounds lowest
                ≡ first_rung unicode tests text target rounds lowest =
              rw (first_rung, nothing) refl in
            subst (IsFound (test ∷ tests) target lowest highest) (sym stepped) (
              next_rung test tests target lowest highest _
                (λ i from to. unseen i from (omega arith)) rest)
        | inr (best, found) ↦
            let (is_one, above, below, far, closest) =
              subst (IsBestYet test target lowest (highest + 1)) found seen in
            let stepped : first_rung unicode (test ∷ tests) text target rounds lowest
                ≡ some best.index =
              rw (first_rung, found) refl in
            subst (IsFound (test ∷ tests) target lowest highest) (sym stepped) (
              inl (record {
                is_one = is_one;
                above = above;
                below = omega arith;
                closest = λ i from to is.
                    let near = closest i from (omega arith) is in
                    (rw (← far) near.0, λ equal. near.1 (equal ∙ sym far));
              }))
      ]

  -- What `findCut` finds, if the window starts no later than one past its end: in the window it looks at
  -- the kinds of cut in the order of the ladder, and takes of the first kind that occurs the cut closest
  -- to the target, the later of two. It finds none only if no kind occurs.
  pub find_cut-IsFound :
      (budget : Budget) (start : ℕ)
      → start + budget.min_chars ≤ min (start + budget.max_chars) (length text) + 1
      → IsFound
          (separator_ladder unicode)
          (start + budget.target_chars)
          (start + budget.min_chars)
          (min (start + budget.max_chars) (length text))
          (find_cut unicode text budget start)
  unfolding find_cut
  find_cut-IsFound budget start window =
      first_rung-IsFound (separator_ladder unicode) _ _ _ _ (omega arith)

  IsFound-window :
      (tests : List CutTest) (target lowest highest cut : ℕ)
      → IsFound tests target lowest highest (some cut)
      → (lowest ≤ cut) × (cut ≤ highest) × (is_safe_boundary unicode text cut ≡ true)
  IsFound-window [] target lowest highest cut found = absurd found
  IsFound-window (test ∷ tests) target lowest highest cut (inl closest) =
      let is_one = closest.is_one in (closest.above, closest.below, ground arith)
  IsFound-window (test ∷ tests) target lowest highest cut (inr (nothing, found)) =
      IsFound-window tests target lowest highest cut found

  -- A cut lies in the window and splits no character.
  pub find_cut_window :
      (budget : Budget) (start cut : ℕ)
      → start + budget.min_chars ≤ min (start + budget.max_chars) (length text) + 1
      → find_cut unicode text budget start ≡ some cut
      → (start + budget.min_chars ≤ cut)
        × (cut ≤ min (start + budget.max_chars) (length text))
        × (is_safe_boundary unicode text cut ≡ true)
  find_cut_window budget start cut window found =
      IsFound-window (separator_ladder unicode) _ _ _ cut (
        subst (IsFound (separator_ladder unicode) _ _ _) found
          (find_cut-IsFound budget start window))
