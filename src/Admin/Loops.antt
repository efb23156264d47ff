-- ===== src/Admin/Loops.antt =====
-- The loops of backend/include/web_socket_controllers.hpp that append one node for each entry.
use mathlib.Core.List.{Memᴰ, append_assoc, append-nil}
use mathlib.Core.List.Memᴰ
use mathlib.Core.Path.{subst}
use concurrent_banking_syste.Prelude.{
  suc, ◌≡◌, ◌⊎◌, inl, inr, refl, sym, ap, ◌∙◌, some, Bool-cases, List, [], ◌∷◌, ◌++◌, length,
}
use concurrent_banking_syste.Run.{Run, ok, fault, blocked, Returns}
use concurrent_banking_syste.HashTable.{Key, Bucket, find_in}
use concurrent_banking_syste.Admin.{Node, append_each}

-- The node of each entry, in order.
pub data Each {A : Type 0} (says : A → Node → Type 0) : List A → List Node → Type 0 where
  none_said : Each says [] []
  one_said :
      {e : A} {es : List A} {n : Node} {ns : List Node}
      → says e n
      → Each says es ns
      → Each says (e ∷ es) (n ∷ ns)

module _ {A : Type 0} {says : A → Node → Type 0} where
  pub length-Each : {es : List A} {ns : List Node} → Each says es ns → length ns ≡ length es
  length-Each none_said = refl
  length-Each (one_said _ rest) = ap suc (length-Each rest)

  pub Each-listed :
      {e : A} {es : List A} {ns : List Node}
      → Each says es ns
      → Memᴰ e es
      → (n : Node) × Memᴰ n ns × says e n
  Each-listed none_said l = absurd (Memᴰ.not-nil l)
  Each-listed (one_said {n} s rest) l = elim (Memᴰ.cases_cons l) [
    | inl here ↦ (n, Memᴰ.head refl, subst (λ x. says x n) (sym here) s)
    | inr there ↦ let (k, m, t) = Each-listed rest there in (k, Memᴰ.tail m, t)
  ]

module _ {A : Type 0} (body : A → Run Node) where
  -- Where the body returns for every entry, so does the loop.
  pub append_each-Each :
      (says : A → Node → Type 0) (es : List A) (result : List Node)
      → ((e : A) → Memᴰ e es → Returns (body e) (says e))
      → Returns
          (append_each body result es)
          λ ns. (added : List Node) × (ns ≡ result ++ added) × Each says es added
  unfolding append_each
  append_each-Each says [] result h = (result, refl, ([], sym (append-nil result), none_said))
  append_each-Each says (e ∷ es) result h =
      let (n, run, s) = h e (Memᴰ.head refl) in
      let (ns, runs, (added, eq, each)) =
        append_each-Each says es (result ++ n ∷ []) (λ x l. h x (Memᴰ.tail l)) in
      (ns, rw (run, runs), (n ∷ added, eq ∙ append_assoc result (n ∷ []) added, one_said s each))

  -- Where the body returns or blocks, and blocks for some entry, the loop blocks.
  pub append_each-blocked :
      (e : A) (es : List A) (result : List Node)
      → ((x : A) → Memᴰ x es → ((n : Node) × (body x ≡ ok n)) ⊎ (body x ≡ fault blocked))
      → Memᴰ e es
      → body e ≡ fault blocked
      → append_each body result es ≡ fault blocked
  unfolding append_each
  append_each-blocked e [] result h l blocks = absurd (Memᴰ.not-nil l)
  append_each-blocked e (x ∷ es) result h l blocks = elim (h x (Memᴰ.head refl)) [
    | inr stops ↦ rw stops refl
    | inl (n, run) ↦ elim (Memᴰ.cases_cons l) [
      | inl here ↦
          let same : ok n ≡ fault blocked = sym run ∙ ap body (sym here) ∙ blocks in absurd (cc)
      | inr there ↦
          rw run
            (append_each-blocked e es (result ++ n ∷ []) (λ y k. h y (Memᴰ.tail k)) there blocks)
    ]
  ]

  pub append_each-either :
      (es : List A) (result : List Node)
      → ((x : A) → Memᴰ x es → ((n : Node) × (body x ≡ ok n)) ⊎ (body x ≡ fault blocked))
      → ((ns : List Node) × (append_each body result es ≡ ok ns))
        ⊎ (append_each body result es ≡ fault blocked)
  unfolding append_each
  append_each-either [] result h = inl (result, refl)
  append_each-either (x ∷ es) result h = elim (h x (Memᴰ.head refl)) [
    | inr stops ↦ inr (rw stops refl)
    | inl (n, run) ↦ elim (append_each-either es (result ++ n ∷ []) (λ y k. h y (Memᴰ.tail k))) [
      | inl (ns, runs) ↦ inl (ns, rw (run, runs))
      | inr stops ↦ inr (rw (run, stops) refl)
    ]
  ]

-- What a map finds in a list of entries is listed there.
pub find_in-listed :
    {K V : Type 0} ⦃key : Key K⦄ (k : K) (v : V) (es : Bucket K V)
    → find_in k es ≡ some v
    → Memᴰ (k, v) es
unfolding find_in
find_in-listed k v [] h = absurd (cc)
find_in-listed ⦃key⦄ k v (e ∷ es) h = elim (Bool-cases (key.equal e.0 k)) [
  | inl same ↦
      let value : some e.1 ≡ some v = rw same at h in
      let entry : (k, v) ≡ e = cc (value, (key.equal_iff e.0 k).0 same) in Memᴰ.head entry
  | inr other ↦ Memᴰ.tail (find_in-listed k v es (rw other at h))
]
