-- ===== src/Draft/Versions.antt =====
-- The versions of a type that a draft lists are those that it gives.
use mathlib.Core.Path.{subst}
use mathlib.Core.Option.{some-injective, none-ne-some}
use shopsystem_kb.Base.{
  ℕ, String, ◌≡◌, refl, sym, ap, ◌∙◌, true, false, not, none, some, List, [], ◌∷◌, ◌==◌, ==_iff,
  ==_refl, contains, string_eq, nat_eq, Option-cases, Bool-cases, inl, inr, arith, if◌then◌else◌,
  filter,
}
use shopsystem_kb.Base.Dict.{lookup, insert, erase, lookup-insert, lookup-erase}
use shopsystem_kb.Content.{Fields}
use shopsystem_kb.Content.Settled.{typed}
use shopsystem_kb.Draft.{Draft, blank, put, remove, made_by, or_nil}
use shopsystem_kb.Draft.Steps.{IsFull, Step, Steps, start, then_step, Rereads, Step-cases}

contains-discard :
    (x id : String) (xs : List String)
    → contains (filter (λ each. not (each == id)) xs) x ≡ (if x == id then false else contains xs x)
contains-discard x id [] = ground arith
contains-discard x id (y ∷ xs) = ground (arith, contains-discard x id xs)

-- What a draft keeps of the versions of what it put.
pub record IsKept (draft : Draft) : Type 0 where
  pub unput :
      (id : String)
      → contains draft.removed id ≡ false
      → lookup id draft.pending ≡ none
      → (lookup id draft.made ≡ none) × (contains draft.gone id ≡ false)
  pub own :
      (id : String) (d : Fields) (n : ℕ)
      → contains draft.removed id ≡ false
      → lookup id draft.pending ≡ some d
      → made_by d ≡ some n
      → (b : Fields) × (lookup n (or_nil (lookup id draft.made)) ≡ some b)
  pub full :
      (id : String) (n : ℕ) (b : Fields)
      → lookup n (or_nil (lookup id draft.made)) ≡ some b
      → IsFull b
  pub put_full : (id : String) (d : Fields) → lookup id draft.pending ≡ some d → IsFull d
  pub numbered :
      (id : String) (d : Fields)
      → lookup id draft.pending ≡ some d
      → typed d ≡ true
      → (n : ℕ) × (made_by d ≡ some n)

IsKept-blank : IsKept blank
unfolding lookup
IsKept-blank = record {
  unput = λ id h e. (refl, refl);
  own = λ id d n h e m. absurd (cc);
  full = λ id n b e. absurd (cc);
  put_full = λ id d e. absurd (cc);
  numbered = λ id d e t. absurd (cc);
}

Rereads-IsKept : (draft next : Draft) → Rereads draft next → IsKept draft → IsKept next
Rereads-IsKept draft next (t, n, w, e) v = subst IsKept (sym e) (record {
  unput = v.unput;
  own = v.own;
  full = v.full;
  put_full = v.put_full;
  numbered = v.numbered;
})

module _ (id : String) (d : Fields) (draft : Draft) where
  lookup-put :
      (x : String)
      → lookup x (put id d draft).pending ≡ (if x == id then some d else lookup x draft.pending)
  unfolding put
  lookup-put x = lookup-insert x id d draft.pending

  removed-put :
      (x : String)
      → contains (put id d draft).removed x ≡ (if x == id then false else contains draft.removed x)
  unfolding put
  removed-put x = contains-discard x id draft.removed

  pub made-put_other :
      (x : String) → (x == id) ≡ false → lookup x (put id d draft).made ≡ lookup x draft.made
  unfolding put
  made-put_other x h = elim (Option-cases (made_by d)) [
    | inl e ↦ ground arith
    | inr (n, e) ↦
        ground (arith, lookup-insert x id (insert n d (or_nil (lookup id draft.made))) draft.made)
  ]

  pub made-put :
      (n m : ℕ)
      → made_by d ≡ some n
      → lookup m (or_nil (lookup id (put id d draft).made))
        ≡ (if m == n then some d else lookup m (or_nil (lookup id draft.made)))
  unfolding put
  made-put n m e = ground (
    arith,
    lookup-insert id id (insert n d (or_nil (lookup id draft.made))) draft.made,
    lookup-insert m n d (or_nil (lookup id draft.made)),
  )

  pub made-put-none : made_by d ≡ none → (put id d draft).made ≡ draft.made
  unfolding put
  made-put-none e = ground arith

  put_same :
      (x : String) (a : Fields)
      → (x == id) ≡ true
      → lookup x (put id d draft).pending ≡ some a
      → d ≡ a
  put_same x a same e = some-injective d a (sym (lookup-put x ∙ rw same) ∙ e)

  pending_other :
      (x : String) → (x == id) ≡ false → lookup x (put id d draft).pending ≡ lookup x draft.pending
  pending_other x other = lookup-put x ∙ rw other

  removed_other :
      (x : String)
      → (x == id) ≡ false
      → contains (put id d draft).removed x ≡ contains draft.removed x
  removed_other x other = removed-put x ∙ rw other

  gone-put : (x : String) → contains (put id d draft).gone x ≡ contains draft.gone x
  unfolding put
  gone-put x = refl

  put-own :
      (v : IsKept draft) (x : String) (a : Fields) (n : ℕ)
      → contains (put id d draft).removed x ≡ false
      → lookup x (put id d draft).pending ≡ some a
      → made_by a ≡ some n
      → (b : Fields) × (lookup n (or_nil (lookup x (put id d draft).made)) ≡ some b)
  put-own v x a n h e m = elim (Bool-cases (x == id)) [
    | inl same ↦ (
      d,
      ap (λ z. lookup n (or_nil (lookup z (put id d draft).made))) ((==_iff x id).0 same)
          ∙ made-put n n (ap made_by (put_same x a same e) ∙ m)
          ∙ rw (==_refl n),
    )
    | inr other ↦
        let (b, f) =
          v.own x a n (sym (removed_other x other) ∙ h) (sym (pending_other x other) ∙ e) m in
        (b, ap (λ r. lookup n (or_nil r)) (made-put_other x other) ∙ f)
  ]

  put-IsFull :
      (v : IsKept draft) (x : String) (n : ℕ) (b : Fields)
      → IsFull d
      → lookup n (or_nil (lookup x (put id d draft).made)) ≡ some b
      → IsFull b
  put-IsFull v x n b is_full e = elim (Bool-cases (x == id)) [
    | inr other ↦ v.full x n b (ap (λ r. lookup n (or_nil r)) (sym (made-put_other x other)) ∙ e)
    | inl same ↦
        let here =
          ap (λ z. lookup n (or_nil (lookup z (put id d draft).made)))
            (sym ((==_iff x id).0 same)) in
        elim (Option-cases (made_by d)) [
          | inl free ↦
              v.full id n b
                (ap (λ r. lookup n (or_nil (lookup id r))) (sym (made-put-none free)) ∙ here ∙ e)
          | inr (k, made_k) ↦ elim (Bool-cases (n == k)) [
            | inl e_k ↦
                subst IsFull (some-injective d b (sym (made-put k n made_k ∙ rw e_k) ∙ here ∙ e))
                  is_full
            | inr ne_k ↦ v.full id n b (sym (made-put k n made_k ∙ rw ne_k) ∙ here ∙ e)
          ]
        ]
  ]

  put-IsKept :
      IsFull d
      → (typed d ≡ true → (n : ℕ) × (made_by d ≡ some n))
      → IsKept draft
      → IsKept (put id d draft)
  put-IsKept is_full is_numbered v = record {
    unput = λ x h e. elim (Bool-cases (x == id)) [
      | inl same ↦ absurd (none-ne-some d (sym e ∙ lookup-put x ∙ rw same))
      | inr other ↦
          let (m, g) =
            v.unput x (sym (removed_other x other) ∙ h) (sym (pending_other x other) ∙ e) in
          (made-put_other x other ∙ m, gone-put x ∙ g)
    ];
    own = put-own v;
    full = λ x n b e. put-IsFull v x n b is_full e;
    put_full = λ x a e. elim (Bool-cases (x == id)) [
      | inl same ↦ subst IsFull (put_same x a same e) is_full
      | inr other ↦ v.put_full x a (sym (pending_other x other) ∙ e)
    ];
    numbered = λ x a e t. elim (Bool-cases (x == id)) [
      | inl same ↦
          let is = put_same x a same e in
          let (n, m) = is_numbered (ap typed is ∙ t) in (n, ap made_by (sym is) ∙ m)
      | inr other ↦ v.numbered x a (sym (pending_other x other) ∙ e) t
    ];
  }

module _ (id : String) (draft : Draft) where
  gone_of : (x : String) → contains (remove id draft).removed x ≡ false → (x == id) ≡ false
  unfolding remove
  gone_of x h = ground arith

  still_there :
      (x : String) → contains (remove id draft).removed x ≡ false → contains draft.removed x ≡ false
  unfolding remove
  still_there x h = ground arith

  erased_other :
      (x : String) → (x == id) ≡ false → lookup x (erase id draft.made) ≡ lookup x draft.made
  erased_other x other = lookup-erase x id draft.made ∙ rw other

  erased : (x : String) → (x == id) ≡ true → lookup x (erase id draft.made) ≡ none
  erased x same = lookup-erase x id draft.made ∙ rw same

  remove-IsKept : IsKept draft → IsKept (remove id draft)
  unfolding remove lookup
  remove-IsKept v = record {
    unput = λ x h e.
        let (m, g) = v.unput x (still_there x h) e in
        (erased_other x (gone_of x h) ∙ m, rw (gone_of x h) g);
    own = λ x a n h e m.
        let (b, f) = v.own x a n (still_there x h) e m in
        (b, ap (λ r. lookup n (or_nil r)) (erased_other x (gone_of x h)) ∙ f);
    full = λ x n b e. elim (Bool-cases (x == id)) [
      | inl same ↦ absurd (none-ne-some b (sym (ap (λ r. lookup n (or_nil r)) (erased x same)) ∙ e))
      | inr other ↦ v.full x n b (ap (λ r. lookup n (or_nil r)) (sym (erased_other x other)) ∙ e)
    ];
    put_full = v.put_full;
    numbered = v.numbered;
  }

Step-IsKept : {draft next : Draft} → Step draft next → IsKept draft → IsKept next
Step-IsKept {draft} {next} step v = elim (Step-cases step) [
  | inl (id, d, full, numbered, e) ↦ subst IsKept (sym e) (put-IsKept id d draft full numbered v)
  | inr (inl (id, e)) ↦ subst IsKept (sym e) (remove-IsKept id draft v)
  | inr (inr r) ↦ Rereads-IsKept draft next r v
]

pub Steps-IsKept : {draft : Draft} → Steps blank draft → IsKept draft
Steps-IsKept start = IsKept-blank
Steps-IsKept (then_step steps step) = Step-IsKept step (Steps-IsKept steps)
