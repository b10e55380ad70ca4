-- ===== src/Journal/Minted.antt =====
-- The ids that `minted` of src/kb/journal.py gives are new, each one.
use Prim.Native.String.{[] as nil, ◌∷◌ as ◌◂◌}
use mathlib.Core.Path.{subst}
use mathlib.Core.Bool.{true≢false}
use mathlib.Core.Option.{some-injective}
use Prim.Native.Char.{Char}
use text.Mathlib.TextLemmas.{nil-append, cons-append}
use shopsystem_kb.Base.{
  ℕ, zero, suc, ◌<◌, ◌≤◌, String, ◌<>◌, ◌≡◌, refl, sym, ap, ◌∙◌, Bool, true, false, some, List, [],
  ◌∷◌, ◌++◌, map, ◌==◌, ==_iff, ==_ne, In-of_contains, In-map, ==_refl, contains, string_eq,
  IsUnique, arith, inl, inr, Bool-cases, In,
}
use shopsystem_kb.Base.Texts.{
  char_eq, split, join, split-ne-nil, holds_char, join-split, split-append_both, split-join_one,
}
use shopsystem_kb.Base.Decimal.{
  is_digit, decimal, digits_only, int_from-decimal, digits_only-decimal, decimal-cons,
}
use shopsystem_kb.Base.Dict.{Dict, lookup, insert, lookup-insert}
use shopsystem_kb.Names.Filing.{last_of-snoc}
use shopsystem_kb.Journal.{
  read_pieces, entry_id, parts, seq_at, last_seq, known, minted_from, minted,
}

digit_apart : (c : Char) → is_digit c ≡ true → ("-" == c) ≡ false
digit_apart c h = ==_ne "-" c (λ e. true≢false (sym h ∙ ap is_digit (sym e)))

digits-no_hyphen : (s : String) → digits_only s ≡ true → holds_char "-" s ≡ false
unfolding digits_only holds_char
digits-no_hyphen nil h = refl
digits-no_hyphen (c ◂ s) h = ground (arith, digit_apart c, digits-no_hyphen s)

decimal-ne-nil : (n : ℕ) → (decimal n == "") ≡ false
unfolding decimal
decimal-ne-nil zero = ==_ne (decimal 0) "" (λ e. cc (e, zero_written))
  where
    zero_written : decimal 0 ≡ "0"
    zero_written = refl
decimal-ne-nil (suc n) =
    let (c, s, e, lead) = decimal-cons (suc n) (ground arith) in
    ==_ne (decimal (suc n)) "" (λ k. cc (e, k))

pieces_of :
    (p : String) (ps : List String) (n : ℕ)
    → (join "-" (p ∷ ps) == "") ≡ false
    → read_pieces ((p ∷ ps) ++ decimal n ∷ []) ≡ some (join "-" (p ∷ ps), n)
pieces_of p ps n h =
    rw (
      last_of-snoc p ps (decimal n),
      decimal-ne-nil n,
      digits_only-decimal n,
      h,
      int_from-decimal n,
    )

-- An id reads back as the moment and the seq it was made of.
pub parts-entry_id : (m : String) (n : ℕ) → (m == "") ≡ false → parts (entry_id m n) ≡ some (m, n)
unfolding parts entry_id
parts-entry_id m n h =
    let (p, ps, e) = split-ne-nil "-" m in
    let whole = sym (ap (join "-") e) ∙ join-split "-" m in
    let pieces =
      ap (λ t. split "-" (m <> t))
        (cons-append "-" nil (decimal n) ∙ ap (λ t. "-" ◂ t) (nil-append (decimal n)))
      ∙ split-append_both "-" m (decimal n)
      ∙ ap (λ l. split "-" m ++ l)
          (split-join_one "-" (decimal n) (digits-no_hyphen (decimal n) (digits_only-decimal n)))
      ∙ ap (λ l. l ++ decimal n ∷ []) e in
    ap read_pieces pieces
    ∙ pieces_of p ps n (ap (λ t. t == "") whole ∙ h)
    ∙ ap (λ t. some (t, n)) whole

seq_at-le :
    (m : String) (id : String) (ids : List String) → In id ids → seq_at m id ≤ last_seq m ids
unfolding last_seq
seq_at-le m id [] h = absurd h.1
seq_at-le m id (i ∷ ids) (inl e) =
    subst (λ j. seq_at m j ≤ last_seq m (i ∷ ids)) (sym e) (ground arith)
seq_at-le m id (i ∷ ids) (inr h) = ground (arith, seq_at-le m id ids h)

clash : (b : Bool) → (b ≡ true → ⊥) → b ≡ false
clash true h = absurd (h refl)
clash false h = refl

seq_at-parts : (m id : String) (n : ℕ) → parts id ≡ some (m, n) → seq_at m id ≡ n
unfolding seq_at
seq_at-parts m id n e = rw (e, seq_at, ==_refl m)

not_below : (a b c : ℕ) → a < b → b ≡ c → a ≡ c → ⊥
not_below a b c l e f = omega arith

above_all : (a b c : ℕ) → a < b → c ≡ a → {d : ℕ} → d ≡ b → d ≤ c → ⊥
above_all a b c l e f g = omega arith

-- The moments are told apart by the texts that their ids begin with, which are not empty.
module _ {T : Type 0} (moment : T → String) (entry_ids : T → List String)
    (told_apart : (a b : T) → moment a ≡ moment b → a ≡ b)
    (is_written : (a : T) → (moment a == "") ≡ false) where
  record Fresh (last : Dict String ℕ) (stamp : T × String) : Type 0 where
    seq : ℕ
    reads : parts stamp.1 ≡ some (moment stamp.0, seq)
    above : known moment entry_ids last stamp.0 < seq

  known_nothing : (at : T) → known moment entry_ids [] at ≡ last_seq (moment at) (entry_ids at)
  unfolding known lookup
  known_nothing at = refl

  known-insert_same :
      (last : Dict String ℕ) (at : T) (n : ℕ)
      → known moment entry_ids (insert (moment at) n last) at ≡ n
  unfolding known
  known-insert_same last at n =
      rw (lookup-insert (moment at) (moment at) n last, known, ==_refl (moment at))

  known-insert_other :
      (last : Dict String ℕ) (at other : T) (n : ℕ)
      → (moment other == moment at) ≡ false
      → known moment entry_ids (insert (moment at) n last) other ≡ known moment entry_ids last other
  unfolding known
  known-insert_other last at other n h =
      rw (lookup-insert (moment other) (moment at) n last, known, h)

  known_grows :
      (last : Dict String ℕ) (at other : T)
      → known moment entry_ids last other
        ≤ known moment entry_ids
            (insert (moment at) (suc (known moment entry_ids last at)) last)
            other
  known_grows last at other = elim (Bool-cases (moment other == moment at)) [
    | inl e ↦
        let same = told_apart other at ((==_iff (moment other) (moment at)).0 e) in
        subst
          (λ o.
            known moment entry_ids last o
            ≤ known moment entry_ids
                (insert (moment at) (suc (known moment entry_ids last at)) last) o)
          (sym same)
          (rw (known-insert_same last at (suc (known moment entry_ids last at))) (ground arith))
    | inr n ↦
        rw (known-insert_other last at other (suc (known moment entry_ids last at)) n)
          (ground arith)
  ]

  minted_from-Fresh :
      (last : Dict String ℕ) (ats : List T) (stamp : T × String)
      → In stamp (minted_from moment entry_ids last ats)
      → Fresh last stamp
  unfolding minted_from
  minted_from-Fresh last [] stamp h = absurd h.1
  minted_from-Fresh last (at ∷ ats) stamp (inl e) = subst (Fresh last) (sym e) (record {
    seq = suc (known moment entry_ids last at);
    reads = parts-entry_id (moment at) (suc (known moment entry_ids last at)) (is_written at);
    above = ground arith;
  })
  minted_from-Fresh last (at ∷ ats) stamp (inr h) =
      let next = insert (moment at) (suc (known moment entry_ids last at)) last in
      let f = minted_from-Fresh next ats stamp h in
      let grows = known_grows last at stamp.0 in
      record { seq = f.seq; reads = f.reads; above = ground (arith, f.above, grows) }

  apart :
      (last : Dict String ℕ) (at : T) (ats : List T) (stamp : T × String)
      → In stamp (
          minted_from moment entry_ids
            (insert (moment at) (suc (known moment entry_ids last at)) last)
            ats)
      → stamp.1 ≡ entry_id (moment at) (suc (known moment entry_ids last at))
      → ⊥
  apart last at ats stamp h e =
      let k = suc (known moment entry_ids last at) in
      let f = minted_from-Fresh (insert (moment at) k last) ats stamp h in
      let read =
        some-injective _ _
          (sym f.reads ∙ ap parts e ∙ parts-entry_id (moment at) k (is_written at)) in
      let same = told_apart stamp.0 at (ap (λ (p : String × ℕ). p.0) read) in
      let seq = ap (λ (p : String × ℕ). p.1) read in
      let holds =
        ap (known moment entry_ids (insert (moment at) k last)) same
        ∙ known-insert_same last at k in
      not_below _ _ _ f.above seq holds

  minted_from-IsUnique :
      (last : Dict String ℕ) (ats : List T)
      → IsUnique (map (λ (s : T × String). s.1) (minted_from moment entry_ids last ats))
  unfolding minted_from
  minted_from-IsUnique last [] = tt
  minted_from-IsUnique last (at ∷ ats) =
      let next = insert (moment at) (suc (known moment entry_ids last at)) last in
      let id = entry_id (moment at) (suc (known moment entry_ids last at)) in
      (
        clash _ (λ h.
            let (stamp, m, e) = In-map (λ (s : T × String). s.1) id _ (In-of_contains id _ h) in
            apart last at ats stamp m (sym e)),
        minted_from-IsUnique next ats,
      )

  -- The ids minted for a set are each new: no two of them are the same, and the history holds none
  -- of them at its moment; where each moment has an id's beginning of its own, which is not empty.
  pub minted-new :
      (moments : List T)
      → IsUnique (map (λ (s : T × String). s.1) (minted moment entry_ids moments))
        × ((stamp : T × String)
            → In stamp (minted moment entry_ids moments)
            → contains (entry_ids stamp.0) stamp.1 ≡ false)
  unfolding minted
  minted-new moments = (
    minted_from-IsUnique [] moments,
    λ stamp m.
        let f = minted_from-Fresh [] moments stamp m in
        clash _ (λ h.
          let le = seq_at-le (moment stamp.0) stamp.1 (entry_ids stamp.0) (In-of_contains _ _ h) in
          let at = seq_at-parts (moment stamp.0) stamp.1 f.seq f.reads in
          above_all _ _ _ f.above (sym (known_nothing stamp.0)) at le),
  )
