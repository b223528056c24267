-- ===== src/Bracket/Generate.antt =====
-- `GenerateBracket` and `advance`: the matches of a single elimination, and the byes of its first
-- round resolved. The map of rounds holds every match, so a match pointer is a round and a slot.
pub mod Step
pub mod Drawn
pub mod Byes
pub mod Opening
pub mod Field
use plan_my_pickle_backend.Base.{
  ℕ, zero, suc, ◌+◌, ◌-◌, ◌*◌, ◌/◌, ◌%◌, ◌^◌, Bool, true, false, not, ◌&&◌, List, [], ◌∷◌, ◌++◌,
  map, Option, none, some, String, str_eq, ltb, leb, ◌==◌, if◌then◌else◌, length, get_or, set,
  tabulate,
}
use plan_my_pickle_backend.Bracket.Seeds.{next_pow2, ilog2, seed_order}

-- The player ids of a side; `none` is Go's nil, a side to be decided.
abbrev pub Side : Type 0
Side = Option (List String)

abbrev pub bye_side : Side
bye_side = some ("__BYE__" ∷ [])

abbrev pub is_bye : Side → Bool
is_bye none = false
is_bye (some []) = false
is_bye (some (x ∷ [])) = str_eq x "__BYE__"
is_bye (some (x ∷ y ∷ rest)) = false

-- `side != nil && !IsBye(side)`
abbrev pub is_real : Side → Bool
is_real none = false
is_real (some ids) = not (is_bye (some ids))

pub record BracketMatchSpec : Type 0 where
  pub round : ℕ
  pub slot : ℕ
  pub side1 : Side
  pub side2 : Side
  pub feeds_round : ℕ
  pub feeds_slot : ℕ
  pub feeds_team : ℕ
  pub resolved_winner : Side

abbrev pub Rounds : Type 0
Rounds = ℕ → List BracketMatchSpec

-- A match with its round and slot, the rest zero.
abbrev pub new_match : ℕ → ℕ → Side → Side → BracketMatchSpec
new_match r i s1 s2 = record {
  round = r;
  slot = i;
  side1 = s1;
  side2 = s2;
  feeds_round = 0;
  feeds_slot = 0;
  feeds_team = 0;
  resolved_winner = none;
}

abbrev pub no_match : BracketMatchSpec
no_match = new_match 0 0 none none

pub side_for_seed : List (List String) → ℕ → Side
side_for_seed sides s =
    if ltb (s - 1) (length sides) then some (get_or sides (s - 1) []) else bye_side

-- The match at slot `i` of round 1.
pub first_match : List (List String) → List ℕ → ℕ → BracketMatchSpec
unfolding side_for_seed
first_match sides order i =
    new_match 1 i (side_for_seed sides (get_or order (2 * i) 0))
      (side_for_seed sides (get_or order (2 * i + 1) 0))

-- The matches before any feed, for a bracket of `n` and `total` rounds.
pub new_rounds : List (List String) → List ℕ → ℕ → ℕ → Rounds
unfolding first_match
new_rounds sides order n total r =
    if r == 1
    then tabulate (first_match sides order) 0 (n / 2)
    else if ltb 1 r && leb r total
    then tabulate (λ i. new_match r i none none) 0 (n / 2 ^ r)
    else []

abbrev pub feed : ℕ → BracketMatchSpec → BracketMatchSpec
feed r m = record m { feeds_round = r + 1; feeds_slot = m.slot / 2; feeds_team = m.slot % 2 + 1 }

-- The feed pointers of all rounds but the last.
pub fed_rounds : ℕ → Rounds → Rounds
fed_rounds total rounds r = if ltb 0 r && ltb r total then map (feed r) (rounds r) else rounds r

-- A write through a match pointer.
abbrev pub put_match : Rounds → ℕ → ℕ → BracketMatchSpec → Rounds
put_match rounds r i m q = if q == r then set (rounds r) i m else rounds q

-- The real side of a match whose other side is a bye, `none` if there is none.
pub past_bye : BracketMatchSpec → Side
past_bye m =
    if is_bye m.side1 && is_real m.side2
    then m.side2
    else if is_bye m.side2 && is_real m.side1
    then m.side1
    else none

abbrev pub seat_winner : BracketMatchSpec → ℕ → Side → BracketMatchSpec
seat_winner target team winner =
    if team == 1 then record target { side1 = winner } else record target { side2 = winner }

-- One call at the match `m`, which `r` and `i` point to; `further` is the recursive call.
pub advance_at :
    (Rounds → ℕ → ℕ → Side → Rounds) → Rounds → ℕ → ℕ → BracketMatchSpec → Side → Rounds
unfolding past_bye
advance_at further rounds r i m winner =
    let resolved = put_match rounds r i (record m { resolved_winner = winner }) in
    let target =
      seat_winner (get_or (resolved m.feeds_round) m.feeds_slot no_match) m.feeds_team winner in
    let seated = put_match resolved m.feeds_round m.feeds_slot target in
    if m.feeds_round == 0 then resolved else elim (past_bye target) [
      | none ↦ seated
      | some ids ↦ further seated m.feeds_round m.feeds_slot (some ids)
    ]

-- Each call goes up a round, so the number of rounds is fuel enough.
pub advance : ℕ → Rounds → ℕ → ℕ → Side → Rounds
unfolding advance_at
advance zero rounds r i winner = rounds
advance (suc fuel) rounds r i winner =
    advance_at (advance fuel) rounds r i (get_or (rounds r) i no_match) winner

-- The body of the loop over round 1, at slot `i`.
pub resolve_bye : ℕ → ℕ → Rounds → Rounds
unfolding advance past_bye
resolve_bye fuel i rounds = elim (past_bye (get_or (rounds 1) i no_match)) [
  | none ↦ rounds
  | some ids ↦ advance fuel rounds 1 i (some ids)
]

pub resolve_byes : ℕ → ℕ → ℕ → Rounds → Rounds
unfolding resolve_bye
resolve_byes fuel i zero rounds = rounds
resolve_byes fuel i (suc left) rounds = resolve_byes fuel (suc i) left (resolve_bye fuel i rounds)

pub all_matches : Rounds → ℕ → ℕ → List BracketMatchSpec
all_matches rounds r zero = []
all_matches rounds r (suc left) = rounds r ++ all_matches rounds (suc r) left

pub record BracketPlan : Type 0 where
  pub size : ℕ
  pub rounds : ℕ
  pub matches : List BracketMatchSpec

-- The rounds when the byes are resolved.
pub bracket_rounds : List (List String) → Rounds
unfolding new_rounds fed_rounds resolve_byes
bracket_rounds sides =
    let n = next_pow2 (if ltb 2 (length sides) then length sides else 2) in
    let total = ilog2 n in
    let rounds = fed_rounds total (new_rounds sides (seed_order n) n total) in
    resolve_byes total 0 (length (rounds 1)) rounds

pub generate_bracket : List (List String) → BracketPlan
unfolding bracket_rounds all_matches
generate_bracket sides =
    let n = next_pow2 (if ltb 2 (length sides) then length sides else 2) in
    record { size = n; rounds = ilog2 n; matches = all_matches (bracket_rounds sides) 1 (ilog2 n) }
