-- ===== src/Simulation/Chain.antt =====
-- The `while` loop of `_build_polygon_from_segments`
-- (simulation/src/sonalyze_simulation/payload_adapter.py), and the corners that come out.
use sonalyze_backend.Prelude.{
  ℕ, zero, suc, ◌+◌, ◌≤◌, ◌≡◌, refl, ap, sym, ◌∙◌, false, none, some, List, [], ◌∷◌, length, ltb,
  inl, inr, Bool-cases, Option-cases, if◌then◌else◌, arith,
}
use sonalyze_backend.Simulation.Python.{Python}
use sonalyze_backend.Simulation.Polygon.{
  Point, Segment, last, points_close, find_next, chain, clean, clean_after, without_closing,
  build_polygon_from_segments,
}

module _ {F : Type 0} (py : Python F) where
  -- the segment that is found is no longer among the unused ones
  find_next-length :
      (current : Point F) (unused : List (Segment F)) (p : Point F) (left : List (Segment F))
      → find_next py current unused ≡ some (p, left)
      → suc (length left) ≡ length unused
  unfolding find_next
  find_next-length current [] p left e = cc e
  find_next-length current ((a, b) ∷ unused) p left e =
      elim (Bool-cases (points_close py a current)) [
        | inl near ↦
            let f : some (b, unused) ≡ some (p, left) = rw near at e in
            let g : unused ≡ left = cc f in ap (λ (l : List (Segment F)). suc (length l)) (sym g)
        | inr far ↦ elim (Bool-cases (points_close py b current)) [
          | inl near ↦
              let f : some (a, unused) ≡ some (p, left) = rw (far, near) at e in
              let g : unused ≡ left = cc f in ap (λ (l : List (Segment F)). suc (length l)) (sym g)
          | inr far' ↦ elim (Option-cases (find_next py current unused)) [
            | inl none_is ↦ let f : none ≡ some (p, left) = rw (far, far', none_is) at e in cc f
            | inr ((q, rest), found) ↦
                let f : some (q, (a, b) ∷ rest) ≡ some (p, left) = rw (far, far', found) at e in
                let g : (a, b) ∷ rest ≡ left = cc f in
                let shorter : suc (length rest) ≡ length unused =
                  find_next-length current unused q rest found in
                let same : suc (length rest) ≡ length left =
                  ap (λ (l : List (Segment F)). length l) g in
                omega (arith, shorter, same)
          ]
        ]
      ]

  find_next-nil : (current : Point F) → find_next py current [] ≡ none
  unfolding find_next
  find_next-nil current = refl

  chain-zero :
      (current : Point F) (unused : List (Segment F)) → chain py 0 current unused ≡ ([], unused)
  unfolding chain
  chain-zero current unused = refl

  chain-none :
      (fuel : ℕ) (current : Point F) (unused : List (Segment F))
      → find_next py current unused ≡ none
      → chain py (suc fuel) current unused ≡ ([], unused)
  unfolding chain
  chain-none fuel current unused e = rw (e, chain) refl

  chain-some :
      (fuel : ℕ) (current p : Point F) (unused left : List (Segment F))
      → find_next py current unused ≡ some (p, left)
      → chain py (suc fuel) current unused
        ≡ (p ∷ (chain py fuel p left).0, (chain py fuel p left).1)
  unfolding chain
  chain-some fuel current p unused left e = rw (e, chain) refl

  chain-stuck :
      (fuel : ℕ) (current : Point F) (unused : List (Segment F))
      → length unused ≤ fuel
      → (find_next py
            (last current (chain py fuel current unused).0)
            (chain py fuel current unused).1
          ≡ none)
        × (length (chain py fuel current unused).0 + length (chain py fuel current unused).1
            ≡ length unused)
  chain-stuck zero current [] enough =
      rw (chain-zero current []) (find_next-nil current, omega arith)
  chain-stuck zero current (s ∷ unused) enough = ground (arith, enough)
  chain-stuck (suc fuel) current unused enough = elim (Option-cases (find_next py current unused)) [
    | inl e ↦ rw (chain-none fuel current unused e) (e, omega arith)
    | inr ((p, left), e) ↦
        let shorter = find_next-length current unused p left e in
        let ih = chain-stuck fuel p left (omega (arith, enough, shorter)) in
        rw (chain-some fuel current p unused left e) (ih.0, omega (arith, ih.1, shorter))
  ]

  chain-fuel :
      (m n : ℕ) (current : Point F) (unused : List (Segment F))
      → length unused ≤ m
      → length unused ≤ n
      → chain py m current unused ≡ chain py n current unused
  chain-fuel zero zero current unused hm hn = refl
  chain-fuel zero (suc n) current [] hm hn =
      chain-zero current [] ∙ sym (chain-none n current [] (find_next-nil current))
  chain-fuel zero (suc n) current (s ∷ unused) hm hn = ground (arith, hm)
  chain-fuel (suc m) zero current [] hm hn =
      chain-none m current [] (find_next-nil current) ∙ sym (chain-zero current [])
  chain-fuel (suc m) zero current (s ∷ unused) hm hn = ground (arith, hn)
  chain-fuel (suc m) (suc n) current unused hm hn =
      elim (Option-cases (find_next py current unused)) [
        | inl e ↦ chain-none m current unused e ∙ sym (chain-none n current unused e)
        | inr ((p, left), e) ↦
            let shorter = find_next-length current unused p left e in
            let ih =
              chain-fuel m n p left (omega (arith, hm, shorter)) (omega (arith, hn, shorter)) in
            chain-some m current p unused left e
            ∙ ap (λ (r : List (Point F) × List (Segment F)). (p ∷ r.0, r.1)) ih
            ∙ sym (chain-some n current p unused left e)
      ]

  -- As much fuel as there are unused segments is enough: the loop ends because no unused segment touches
  -- the end of the chain, each segment gave a point of it or is unused, and more fuel changes nothing.
  pub chain-enough :
      (fuel : ℕ) (current : Point F) (unused : List (Segment F))
      → length unused ≤ fuel
      → (find_next py
            (last current (chain py fuel current unused).0)
            (chain py fuel current unused).1
          ≡ none)
        × (length (chain py fuel current unused).0 + length (chain py fuel current unused).1
            ≡ length unused)
        × (chain py (length unused) current unused ≡ chain py fuel current unused)
  chain-enough fuel current unused enough =
      let (ends, counted) = chain-stuck fuel current unused enough in
      (ends, counted, chain-fuel (length unused) fuel current unused (omega arith) enough)

  -- No point is close to the one before it.
  abbrev pub IsApart : Point F → List (Point F) → Type 0
  IsApart p [] = Unit
  IsApart p (q ∷ points) = (points_close py p q ≡ false) × IsApart q points

  clean_after-IsApart :
      (before : Point F) (points : List (Point F)) → IsApart before (clean_after py before points)
  unfolding clean_after
  clean_after-IsApart before [] = tt
  clean_after-IsApart before (p ∷ points) = elim (Bool-cases (points_close py before p)) [
    | inl e ↦ rw e (clean_after-IsApart before points)
    | inr e ↦ rw e (e, clean_after-IsApart p points)
  ]

  -- What the corners of a room are: none, or at least three of which no two neighbours are close.
  abbrev pub IsOutline : List (Point F) → Type 0
  IsOutline [] = Unit
  IsOutline (p ∷ points) = (2 ≤ length points) × IsApart p points

  clean-IsOutline :
      (points : List (Point F))
      → IsOutline (if ltb (length (clean py points)) 3 then [] else clean py points)
  unfolding clean
  clean-IsOutline [] = tt
  clean-IsOutline (p ∷ points) =
      elim (Bool-cases (ltb (suc (length (clean_after py p points))) 3)) [
        | inl e ↦ rw e tt
        | inr e ↦ rw e (ground (arith, e), clean_after-IsApart p points)
      ]

  pub build_polygon-IsOutline :
      (segments : List (Segment F)) → IsOutline (build_polygon_from_segments py segments)
  unfolding build_polygon_from_segments
  build_polygon-IsOutline [] = tt
  build_polygon-IsOutline ((a, b) ∷ unused) =
      clean-IsOutline (without_closing py (a ∷ b ∷ (chain py (length unused) b unused).0))
