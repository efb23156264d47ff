-- ===== src/FraudDetector.antt =====
-- `FraudDetector` of backend/include/fraud_detector.hpp: the search for cycles of transfers. The
-- vectors and the set of the search are explicit state, which the code pushes to before a recursive
-- call and pops after it.
pub mod Detect
pub mod Paths
pub mod Cycle
pub mod Hops
pub mod Ends
pub mod Fuel
pub mod Finds
pub mod Depth
pub mod Window
pub mod Closed
pub mod Exact
pub mod Build
pub mod Audit
mod Tests
use concurrent_banking_syste.Prelude.{
  ℕ, zero, suc, Bool, true, false, not, ◌&&◌, ◌||◌, Option, none, some, String, List, [], ◌∷◌, ◌++◌,
  length, ltb, leb, ◌==◌, if◌then◌else◌, str_eq,
}
use concurrent_banking_syste.Prelude.Int.{ℤ, pos, ltb_ℤ, leb_ℤ, eqb_ℤ}
use concurrent_banking_syste.Run.{Run, ok, fault, out_of_fuel, ◌>>=◌, sub64}
use concurrent_banking_syste.HashTable
use concurrent_banking_syste.HashTable.{HashTable, Key, default_buckets}

-- `double`, which the language has and these numbers do not: what the detector computes with.
pub record Floating : Type 1 where
  pub Double : Type 0
  pub of_int64 : ℤ → Double
  pub divide : Double → Double → Double
  pub subtract : Double → Double → Double
  pub less : Double → Double → Bool
  -- The literals 1.0 and 1.02.
  pub one : Double
  pub upper : Double

pub record Edge : Type 0 where
  pub to : ℤ
  pub amount : ℤ
  pub timestamp : ℤ

pub record FraudDetector (Double : Type 0) : Type 0 where
  pub graph : HashTable ℤ (List Edge)
  pub amount_tolerance : Double
  pub max_window_seconds : ℤ
  pub min_amount_threshold : ℤ
  pub max_cycle_length : ℕ

unfoldable pub new : {Double : Type 0} → ℤ → Double → ℤ → ℕ → FraudDetector Double
new threshold tolerance window max_length = record {
  graph = HashTable.new ℤ (List Edge) default_buckets;
  amount_tolerance = tolerance;
  max_window_seconds = window;
  min_amount_threshold = threshold;
  max_cycle_length = max_length;
}

-- `find` leaves its result alone where the key is missing: an empty vector.
abbrev pub or_empty : Option (List Edge) → List Edge
or_empty none = []
or_empty (some edges) = edges

-- What `findCyclesFrom` is given by reference.
pub record Search : Type 0 where
  pub on_path : List ℤ
  pub path_nodes : List ℤ
  pub path_edges : List Edge
  pub flagged : List (List ℤ)

-- `std::unordered_set<int>`: `count`, `insert` and `erase`.
abbrev pub holds : ℤ → List ℤ → Bool
holds x [] = false
holds x (y ∷ ys) = eqb_ℤ x y || holds x ys

abbrev pub put_in : ℤ → List ℤ → List ℤ
put_in x xs = if holds x xs then xs else x ∷ xs

abbrev pub erase : ℤ → List ℤ → List ℤ
erase x [] = []
erase x (y ∷ ys) = if eqb_ℤ x y then erase x ys else y ∷ erase x ys

-- `back` and `pop_back` of a vector.
abbrev pub back : {A : Type 0} → List A → Option A
back [] = none
back (x ∷ xs) = elim (back xs) [ none ↦ some x | some y ↦ some y ]

abbrev pub pop_back : {A : Type 0} → List A → List A
pop_back [] = []
pop_back (x ∷ xs) = elim xs [ [] ↦ [] | _ ∷ _ ↦ x ∷ pop_back xs ]

-- `std::min` and `std::max`.
abbrev pub min : ℤ → ℤ → ℤ
min a b = if ltb_ℤ b a then b else a

abbrev pub max : ℤ → ℤ → ℤ
max a b = if ltb_ℤ a b then b else a

-- An end of the window: the first edge of a path starts a new window.
abbrev pub widened : (ℤ → ℤ → ℤ) → List Edge → ℤ → ℤ → ℤ
widened choose [] old timestamp = timestamp
widened choose (_ ∷ _) old timestamp = choose old timestamp

unfoldable pub enter : Edge → Search → Search
enter e s = record s {
  on_path = put_in e.to s.on_path;
  path_nodes = s.path_nodes ++ e.to ∷ [];
  path_edges = s.path_edges ++ e ∷ [];
}

unfoldable pub leave : Edge → Search → Search
leave e s = record s {
  on_path = erase e.to s.on_path;
  path_nodes = pop_back s.path_nodes;
  path_edges = pop_back s.path_edges;
}

unfoldable pub flag : ℤ → Search → Search
flag start s = record s { flagged = s.flagged ++ (s.path_nodes ++ start ∷ []) ∷ [] }

module _ (floating : Floating) where
  open floating use {Double, of_int64, divide, subtract, less, one, upper}

  -- The test of the ratio of two amounts, which the code makes for a positive `previous`.
  unfoldable pub out_of_band : FraudDetector Double → ℤ → ℤ → Bool
  out_of_band d previous amount =
      let ratio = divide (of_int64 amount) (of_int64 previous) in
      less ratio (subtract one d.amount_tolerance) || less upper ratio

  unfoldable pub breaks_off : FraudDetector Double → Option Edge → Edge → Bool
  breaks_off d none e = false
  breaks_off d (some previous) e =
      leb_ℤ previous.amount (pos 0) || out_of_band d previous.amount e.amount

  -- The new window, or `none` where the method returns false.
  unfoldable pub hop_is_viable :
      FraudDetector Double → List Edge → Edge → ℤ → ℤ → Run (Option (ℤ × ℤ))
  hop_is_viable d path_edges e earliest latest =
      if ltb_ℤ e.amount d.min_amount_threshold
      then ok none
      else if breaks_off d (back path_edges) e
      then ok none
      else let first = widened min path_edges earliest e.timestamp in
        let last = widened max path_edges latest e.timestamp in
        sub64 last first >>= λ span.
        if ltb_ℤ span (pos 0) || ltb_ℤ d.max_window_seconds span
        then ok none
        else ok (some (first, last))

  -- The body of the loop over the outgoing edges, with the recursive call as `again`.
  unfoldable pub visit_edge :
      (Edge → ℤ → ℤ → Search → Run Search)
      → FraudDetector Double
      → ℤ
      → ℤ
      → ℤ
      → Edge
      → Search
      → Run Search
  visit_edge again d start earliest latest e s =
      if ltb_ℤ e.to start
      then ok s
      else (hop_is_viable d s.path_edges e earliest latest >>= λ viable. elim viable [
        | none ↦ ok s
        | some (first, last) ↦
            if eqb_ℤ e.to start
            then ok (flag start s)
            else if holds e.to s.on_path
            then ok s
            else (again e first last (enter e s) >>= λ s'. ok (leave e s'))
      ])

  unfoldable pub visit_edges :
      (Edge → ℤ → ℤ → Search → Run Search)
      → FraudDetector Double
      → ℤ
      → ℤ
      → ℤ
      → List Edge
      → Search
      → Run Search
  visit_edges again d start earliest latest [] s = ok s
  visit_edges again d start earliest latest (e ∷ es) s =
      visit_edge again d start earliest latest e s >>= visit_edges again d start earliest latest es

  unfoldable pub at_limit : FraudDetector Double → List Edge → Bool
  at_limit d path_edges =
      not (d.max_cycle_length == 0) && leb d.max_cycle_length (length path_edges)

  module _ ⦃key : Key ℤ⦄ where
    -- The recursion, on fuel for its depth.
    unfoldable pub find_cycles_from : ℕ → FraudDetector Double → ℤ → ℤ → ℤ → ℤ → Search → Run Search
    unfolding visit_edges visit_edge
    find_cycles_from zero d start node earliest latest s = fault out_of_fuel
    find_cycles_from (suc fuel) d start node earliest latest s =
        if at_limit d s.path_edges
        then ok s
        else (HashTable.find node d.graph >>= λ outgoing. elim outgoing [
          | none ↦ ok s
          | some edges ↦
              visit_edges (λ (e : Edge). find_cycles_from fuel d start e.to) d start earliest latest
                edges s
        ])
