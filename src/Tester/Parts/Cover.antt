-- ===== src/Tester/Parts/Cover.antt =====
-- What the two parts hold together.
use pluggable_sharded_fault.Base.{
  ℕ, zero, suc, ◌+◌, ◌-◌, ◌/◌, ◌%◌, ◌≡◌, ◌≤◌, ◌<◌, refl, ap, sym, ◌∙◌, true, false, List, [], ◌∷◌,
  ◌++◌, arith, ltb, eqb, if◌then◌else◌, ok, length, set, replicate, Bool-cases, inl, inr,
  length-replicate, length-set, length-append, leb, ◌&&◌,
}
use pluggable_sharded_fault.Tester.Parts.{assign, place, fill, put_last, make_partition}
use pluggable_sharded_fault.Tester.Parts.Slots.{
  set-append_left, set-append_right, set_next, set_last, append_assoc, append_nil, zeros,
  replicate-add,
}

-- The servers from `i` on, `left` of them, without the leader
unfoldable pub others : ℕ → ℕ → ℕ → List ℕ
others l zero i = []
others l (suc left) i = let rest = others l left (i + 1) in if eqb i l then rest else i ∷ rest

-- The parts after an assignment, as one list
place_lem :
    (j v : ℕ) (p1 p2 : List ℕ)
    → j < length p1 + length p2
    → (q1 : List ℕ) × (q2 : List ℕ) × (place j v p1 p2 ≡ ok (q1, q2))
      × (q1 ++ q2 ≡ set (p1 ++ p2) j v)
      × (length q1 ≡ length p1)
      × (length q2 ≡ length p2)
unfolding place assign
place_lem j v p1 p2 h = elim (Bool-cases (ltb j (length p1))) [
  | inl low ↦ (
    set p1 j v,
    p2,
    rw low,
    sym (set-append_left p1 p2 j v (ground arith)),
    length-set p1 j v,
    refl,
  )
  | inr high ↦
      let inside : ltb (j - length p1) (length p2) ≡ true = ground arith in
      (
        p1,
        set p2 (j - length p1) v,
        rw (high, inside),
        sym (set-append_right p1 p2 j (j - length p1) v (ground arith)),
        refl,
        length-set p2 (j - length p1) v,
      )
]

length-others :
    (l left i : ℕ)
    → length (others l left i) + (if leb i l && ltb l (i + left) then 1 else 0) ≡ left
unfolding others
length-others l zero i = ground arith
length-others l (suc left) i = ground (arith, length-others l left (i + 1))

-- What the loop leaves: the parts as one list, with the zeros that it has not reached.
record Filled (l left i j k : ℕ) (p1 p2 done : List ℕ) : Type 0 where
  q1 : List ℕ
  q2 : List ℕ
  filled : fill l left i j p1 p2 ≡ ok (q1, q2)
  whole : q1 ++ q2 ≡ (done ++ others l left i) ++ replicate k 0
  first : length q1 ≡ length p1
  second : length q2 ≡ length p2

none_left : (l i : ℕ) → others l 0 i ≡ []
unfolding others
none_left l i = refl

nothing : (l i k : ℕ) → length (others l 0 i) + k ≡ k
nothing l i k = omega (arith, ap length (none_left l i))

others_leader : (l left i : ℕ) → eqb i l ≡ true → others l (suc left) i ≡ others l left (i + 1)
unfolding others
others_leader l left i h = rw h

others_server : (l left i : ℕ) → eqb i l ≡ false → others l (suc left) i ≡ i ∷ others l left (i + 1)
unfolding others
others_server l left i h = rw h

fill-Filled :
    (l left i j k : ℕ) (p1 p2 done : List ℕ)
    → p1 ++ p2 ≡ done ++ replicate (length (others l left i) + k) 0
    → length done ≡ j
    → Filled l left i j k p1 p2 done
unfolding fill
fill-Filled l zero i j k p1 p2 done e n = record {
  q1 = p1;
  q2 = p2;
  filled = refl;
  whole =
      e
      ∙ ap (λ m. done ++ replicate m 0) (nothing l i k)
      ∙ ap (λ d. d ++ replicate k 0) (sym (ap (λ o. done ++ o) (none_left l i) ∙ append_nil done));
  first = refl;
  second = refl;
}
fill-Filled l (suc left) i j k p1 p2 done e n = elim (Bool-cases (eqb i l)) [
  | inl leader ↦
      let same = others_leader l left i leader in
      let f : Filled l left (i + 1) j k p1 p2 done =
        fill-Filled l left (i + 1) j k p1 p2 done
          (e ∙ ap (λ o. done ++ replicate (length o + k) 0) same) n in
      record {
        q1 = f.q1;
        q2 = f.q2;
        filled = rw leader f.filled;
        whole = f.whole ∙ ap (λ o. (done ++ o) ++ replicate k 0) (sym same);
        first = f.first;
        second = f.second;
      }
  | inr server ↦
      let rest = others l left (i + 1) in
      let same = others_server l left i server in
      let number : length (i ∷ rest) + k ≡ suc (length rest + k) = omega arith in
      let unwritten : p1 ++ p2 ≡ done ++ replicate (suc (length rest + k)) 0 =
        e
        ∙ ap (λ o. done ++ replicate (length o + k) 0) same
        ∙ ap (λ m. done ++ replicate m 0) number in
      let (r1, r2, placed, one, n1, n2) = place_lem j i p1 p2 (
        omega (
          arith,
          n,
          ap length unwritten,
          length-append p1 p2,
          length-append done (replicate (suc (length rest + k)) 0),
        )) in
      let next : r1 ++ r2 ≡ (done ++ (i ∷ [])) ++ replicate (length rest + k) 0 =
        one
        ∙ ap (λ w. set w j i) unwritten
        ∙ ap (λ m. set (done ++ replicate (suc (length rest + k)) 0) m i) (sym n)
        ∙ set_next done (length rest + k) i in
      let f : Filled l left (i + 1) (j + 1) k r1 r2 (done ++ (i ∷ [])) =
        fill-Filled l left (i + 1) (j + 1) k r1 r2 (done ++ (i ∷ [])) next
          (omega (arith, n, length-append done (i ∷ []))) in
      record {
        q1 = f.q1;
        q2 = f.q2;
        filled = rw (server, placed) f.filled;
        whole =
            f.whole
            ∙ ap (λ o. o ++ replicate k 0) (append_assoc done (i ∷ []) rest)
            ∙ ap (λ o. (done ++ o) ++ replicate k 0) (sym same);
        first = f.first ∙ n1;
        second = f.second ∙ n2;
      }
]

put_last-set :
    (l m : ℕ) (q1 q2 : List ℕ) → length q2 ≡ suc m → put_last l q1 q2 ≡ ok (q1, set q2 m l)
unfolding put_last
put_last-set l m q1 [] h = absurd (omega (arith, h))
put_last-set l m q1 (x ∷ q2) h =
    let number : length q2 ≡ m = omega (arith, h) in ap (λ i. ok (q1, set (x ∷ q2) i l)) number

all_but_leader : (n l : ℕ) → l < n → length (others l n 0) + 1 ≡ n
all_but_leader n l h = ground (arith, length-others l n 0)

make_partition_of :
    (n l : ℕ) (q1 q2 : List ℕ)
    → fill l n 0 0 (zeros (n / 2 + 1)) (zeros (n / 2)) ≡ ok (q1, q2)
    → make_partition n l ≡ put_last l q1 q2
unfolding make_partition zeros
make_partition_of n l q1 q2 h = ground (arith, h)

-- With two servers or more and a leader among them: the parts together hold every server but the
-- leader once, in order, then one zero if the number of servers is even, and then the leader; the
-- first part holds one more than half.
pub make_partition-covers :
    (n l : ℕ)
    → 2 ≤ n
    → l < n
    → (p1 : List ℕ) × (p2 : List ℕ) × (make_partition n l ≡ ok (p1, p2))
      × (p1 ++ p2 ≡ others l n 0 ++ (replicate (1 - n % 2) 0 ++ (l ∷ [])))
      × (length p1 ≡ n / 2 + 1)
unfolding zeros
make_partition-covers n l two small =
    let r = 1 - n % 2 in
    let m = n / 2 - 1 in
    let others_count = all_but_leader n l small in
    let number : n / 2 + 1 + n / 2 ≡ length (others l n 0) + suc r = omega (arith, others_count) in
    let start : zeros (n / 2 + 1) ++ zeros (n / 2) ≡ zeros (length (others l n 0) + suc r) =
      replicate-add (n / 2 + 1) (n / 2) ∙ ap zeros number in
    let f : Filled l n 0 0 (suc r) (replicate (n / 2 + 1) 0) (replicate (n / 2) 0) [] =
      fill-Filled l n 0 0 (suc r) (replicate (n / 2 + 1) 0) (replicate (n / 2) 0) [] start refl in
    let first : length f.q1 ≡ n / 2 + 1 = f.first ∙ length-replicate (n / 2 + 1) 0 in
    let second : length f.q2 ≡ suc m = omega (arith, f.second, length-replicate (n / 2) zero) in
    let place_of_last : length f.q1 + m ≡ length (others l n 0) + r =
      omega (arith, first, others_count) in
    (
      f.q1,
      set f.q2 m l,
      make_partition_of n l f.q1 f.q2 f.filled ∙ put_last-set l m f.q1 f.q2 second,
      sym (set-append_right f.q1 f.q2 (length f.q1 + m) m l refl)
          ∙ ap (λ w. set w (length f.q1 + m) l) f.whole
          ∙ set-append_right (others l n 0) (replicate (suc r) 0) (length f.q1 + m) r l
              place_of_last
          ∙ ap (λ w. others l n 0 ++ w) (set_last r l),
      first,
    )
