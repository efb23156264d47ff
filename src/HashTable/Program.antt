-- ===== src/HashTable/Program.antt =====
-- A client's calls in order, on the table and on the map that it stands for.
use concurrent_banking_syste.Prelude.{
  ◌≡◌, refl, Option, none, some, Bool, true, false, List, [], ◌∷◌, arith,
}
use concurrent_banking_syste.Run.{Run, ok, ◌>>=◌, Returns}
use concurrent_banking_syste.HashTable.{Key, HashTable, insert, find, remove, contains, clear}
use concurrent_banking_syste.HashTable.Placed.{view, IsValid}
use concurrent_banking_syste.HashTable.Methods.{
  update, find-view, insert-Writes, remove-Writes, contains-view,
}
use concurrent_banking_syste.HashTable.Empty.{clear_lem}

pub data Call {ℓ} (K V : Type ℓ) : Type ℓ where
  insert_call : K → V → Call K V
  find_call : K → Call K V
  remove_call : K → Call K V
  contains_call : K → Call K V
  clear_call : Call K V

-- What a call gives back.
pub data Reply {ℓ} (V : Type ℓ) : Type ℓ where
  nothing : Reply V
  found : Option V → Reply V
  answer : Bool → Reply V

abbrev pub is_some {ℓ} : {V : Type ℓ} → Option V → Bool
is_some (some _) = true
is_some none = false

module _ {ℓ} {K V : Type ℓ} ⦃key : Key K⦄ where
  -- One call on the table.
  pub call : Call K V → HashTable K V → Run (Reply V × HashTable K V)
  call (insert_call k v) t = do t' ← insert k v t; ok (nothing, t')
  call (find_call k) t = do r ← find k t; ok (found r, t)
  call (remove_call k) t = do (b, t') ← remove k t; ok (answer b, t')
  call (contains_call k) t = do b ← contains k t; ok (answer b, t)
  call clear_call t = ok (nothing, clear t)

  pub calls : List (Call K V) → HashTable K V → Run (List (Reply V) × HashTable K V)
  calls [] t = ok ([], t)
  calls (c ∷ cs) t = do (r, t') ← call c t; (rs, t'') ← calls cs t'; ok (r ∷ rs, t'')

  -- The same on a map.
  pub map_call : Call K V → (K → Option V) → Reply V × (K → Option V)
  map_call (insert_call k v) f = (nothing, update f k (some v))
  map_call (find_call k) f = (found (f k), f)
  map_call (remove_call k) f = (answer (is_some (f k)), update f k none)
  map_call (contains_call k) f = (answer (is_some (f k)), f)
  map_call clear_call f = (nothing, λ _. none)

  pub map_calls : List (Call K V) → (K → Option V) → List (Reply V) × (K → Option V)
  map_calls [] f = ([], f)
  map_calls (c ∷ cs) f = let (r, g) = map_call c f in let (rs, h) = map_calls cs g in (r ∷ rs, h)

  -- A valid table that reads as the map `f`.
  abbrev pub Models : (K → Option V) → HashTable K V → Type ℓ
  Models f t = IsValid t × ((q : K) → view t q ≡ f q)

  pub call_refines :
      (c : Call K V) (f : K → Option V) (t : HashTable K V)
      → Models f t
      → Returns (call c t) λ r. (r.0 ≡ (map_call c f).0) × Models (map_call c f).1 r.1
  unfolding call map_call
  call_refines (insert_call k v) f t m =
      let (t', run, w) = insert-Writes t m.0 k v in
      ((nothing, t'), rw (run, ◌>>=◌), (refl, (w.valid, λ q. ground (arith, w.reads q, m.1 q))))
  call_refines (find_call k) f t m =
      ((found (view t k), t), rw (find-view t k m.0, ◌>>=◌), (rw (m.1 k), m))
  call_refines (remove_call k) f t m =
      let (r, run, (said, w)) = remove-Writes t m.0 k in
      (
        (answer r.0, r.1),
        rw (run, ◌>>=◌),
        (ground (arith, said, m.1 k), (w.valid, λ q. ground (arith, w.reads q, m.1 q))),
      )
  call_refines (contains_call k) f t m =
      ((answer (is_some (view t k)), t), rw (contains-view t k m.0, ◌>>=◌), (rw (m.1 k), m))
  call_refines clear_call f t m =
      let c = clear_lem t m.0 in ((nothing, clear t), refl, (refl, (c.0, c.1)))

  -- Any sequence of `insert`, `find`, `remove`, `contains` and `clear` on a valid table that reads
  -- as the map `f` ends without a fault, gives the replies that the map gives, and leaves a valid
  -- table that reads as the last map.
  pub calls_refine :
      (cs : List (Call K V)) (f : K → Option V) (t : HashTable K V)
      → Models f t
      → Returns (calls cs t) λ r. (r.0 ≡ (map_calls cs f).0) × Models (map_calls cs f).1 r.1
  unfolding calls map_calls
  calls_refine [] f t m = (([], t), refl, (refl, m))
  calls_refine (c ∷ cs) f t m =
      let (r, run, (said, m')) = call_refines c f t m in
      let (rs, runs, (saids, m'')) = calls_refine cs (map_call c f).1 r.1 m' in
      ((r.0 ∷ rs.0, rs.1), rw (run, ◌>>=◌, runs), (rw (said, saids), m''))
