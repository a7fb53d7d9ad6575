-- ===== src/Util/Text/Trim.antt =====
-- `trimleft`, `trimright` and `trim`: copies of a string are taken off both ends of another.
use echo_frame.Base.{
  ℕ, zero, suc, ◌+◌, ◌<◌, ◌≡◌, ◌≢◌, inl, inr, refl, sym, ap, ◌∙◌, true, false, none, some, [], ◌++◌,
  ◌==◌, length, take, drop, length-append, length-drop, append_assoc, append-nil, take-append-drop,
  arith, Bool-cases, nil_of_length, ==_iff, eq→==,
}
use echo_frame.Util.Text.{Text, starts_with, rfind, erase_at, trimleft, trimright, trim}
use echo_frame.Util.Text.Search.{
  starts_with_split, find_front, find_not_front, rfind-append, rfind-cases,
}

-- So many copies, one after the other.
unfoldable pub copies : ℕ → Text → Text
copies zero c = []
copies (suc n) c = c ++ copies n c

-- `erase` at the front.
erase_front : (n : ℕ) (s : Text) → erase_at 0 n s ≡ drop n s
erase_front n s = let front : 0 + n ≡ n = omega arith in ap (λ k. drop k s) front

copies_comm : (n : ℕ) (c : Text) → c ++ copies n c ≡ copies n c ++ c
unfolding copies
copies_comm zero c = append-nil c
copies_comm (suc n) c = ap (λ k. c ++ k) (copies_comm n c) ∙ sym (append_assoc c (copies n c) c)

-- With a round for each character and one more, `trimleft` of a string that is not empty returns
-- what stands behind the copies at the front, and that does not begin with another copy.
pub trimleft_lem :
    (fuel : ℕ) (c s : Text)
    → 0 < length c
    → length s < fuel
    → (r : Text) × (n : ℕ) × (trimleft fuel c s ≡ some r)
      × (copies n c ++ r ≡ s)
      × (starts_with c r ≡ false)
unfolding trimleft copies
trimleft_lem zero c s pos h = absurd (omega arith)
trimleft_lem (suc fuel) c s pos h = elim (Bool-cases (starts_with c s)) [
  | inr no_more ↦ elim (find_not_front c s no_more) [
    | inl f ↦ (s, 0, rw f refl, refl, no_more)
    | inr (i, f) ↦ (s, 0, rw f refl, refl, no_more)
  ]
  | inl more ↦
      let shorter : length (drop (length c) s) < fuel =
        omega
          (arith, length-append c (drop (length c) s), ap length (starts_with_split c s more)) in
      let (r, n, e, whole, stop) = trimleft_lem fuel c (drop (length c) s) pos shorter in
      (
        r,
        suc n,
        rw (find_front c s more, erase_front (length c) s) e,
        append_assoc c (copies n c) r ∙ ap (λ k. c ++ k) whole ∙ starts_with_split c s more,
        stop,
      )
]

-- No copy of `c` stands at the end.
abbrev pub IsBare : Text → Text → Type 0
IsBare c s = (front : Text) → front ++ c ≢ s

none_ends : (c s : Text) → 0 < length c → rfind c s ≡ none → IsBare c s
none_ends c s pos f front e = cc (rfind-append front c pos, ap (rfind c) e)

other_ends :
    (c s : Text) (i : ℕ) → 0 < length c → rfind c s ≡ some i → i + length c ≢ length s → IsBare c s
other_ends c s i pos f h front e = h (
    omega (
      arith,
      length-append front c,
      ap length e,
      some_inj (sym (rfind-append front c pos) ∙ ap (rfind c) e ∙ f),
    ))
  where
    some_inj : some (length front) ≡ some i → length front ≡ i
    some_inj k = cc

-- A copy at the end, and what `erase` leaves of the string.
end_split :
    (c s : Text) (i : ℕ)
    → starts_with c (drop i s) ≡ true
    → i + length c ≡ length s
    → (erase_at i (length c) s ≡ take i s) × (take i s ++ c ≡ s)
end_split c s i e h =
    let behind : drop (i + length c) s ≡ [] =
      nil_of_length _ (omega (arith, length-drop (i + length c) s)) in
    let rest : drop (length c) (drop i s) ≡ [] =
      nil_of_length _ (omega (arith, length-drop (length c) (drop i s), length-drop i s)) in
    (
      ap (λ k. take i s ++ k) behind ∙ append-nil (take i s),
      ap (λ k. take i s ++ k)
            (sym (append-nil c) ∙ ap (λ k. c ++ k) (sym rest) ∙ starts_with_split c (drop i s) e)
          ∙ take-append-drop i s,
    )

-- With a round for each character and one more, `trimright` of a string that is not empty returns
-- what stands before the copies at the end, and that does not end with another copy.
pub trimright_lem :
    (fuel : ℕ) (c s : Text)
    → 0 < length c
    → length s < fuel
    → (r : Text) × (n : ℕ) × (trimright fuel c s ≡ some r) × (r ++ copies n c ≡ s) × IsBare c r
unfolding trimright copies
trimright_lem zero c s pos h = absurd (omega arith)
trimright_lem (suc fuel) c s pos h = elim (rfind-cases c s) [
  | inl f ↦ (s, 0, rw f refl, append-nil s, none_ends c s pos f)
  | inr (i, f, e) ↦ elim (Bool-cases (i + length c == length s)) [
    | inr inside ↦ (
      s,
      0,
      rw (f, inside) refl,
      append-nil s,
      other_ends c s i pos f (λ k. cc (eq→== (i + length c) (length s) k, inside)),
    )
    | inl at_end ↦
        let (erased, whole) = end_split c s i e ((==_iff (i + length c) (length s)).0 at_end) in
        let (r, n, g, same, bare) =
          trimright_lem fuel c (take i s) pos
            (omega (arith, length-append (take i s) c, ap length whole)) in
        (
          r,
          suc n,
          rw (f, at_end, erased) g,
          ap (λ k. r ++ k) (copies_comm n c)
              ∙ sym (append_assoc r (copies n c) c)
              ∙ ap (λ k. k ++ c) same
              ∙ whole,
          bare,
        )
  ]
]

-- With more rounds than the string has characters, `trim` returns what is left of the string when
-- copies of a string that is not empty are taken off its front and then off its end, and no copy
-- is left at the end.
trim_lem :
    (fuel : ℕ) (c s : Text)
    → 0 < length c
    → length s < fuel
    → (r : Text) × (m : ℕ) × (n : ℕ) × (trim fuel c s ≡ some r)
      × (copies m c ++ (r ++ copies n c) ≡ s)
      × IsBare c r
unfolding trim
trim_lem fuel c s pos h =
    let (t, m, e, whole, stop) = trimleft_lem fuel c s pos h in
    let (r, n, e', whole', bare) =
      trimright_lem fuel c t pos (omega (arith, ap length whole, length-append (copies m c) t)) in
    (r, m, n, rw e e', ap (λ k. copies m c ++ k) whole' ∙ whole, bare)

trimleft_forever : (fuel : ℕ) (s : Text) → trimleft fuel [] s ≡ none
unfolding trimleft starts_with
trimleft_forever zero s = refl
trimleft_forever (suc fuel) s = rw (find_front [] s refl) (trimleft_forever fuel _)

-- `trim` of the empty string off any string never returns.
pub trim_forever : (fuel : ℕ) (s : Text) → trim fuel [] s ≡ none
unfolding trim
trim_forever fuel s = rw (trimleft_forever fuel s) refl
