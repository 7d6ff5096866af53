-- ===== src/Tcg/Temps.antt =====
-- What the optimiser knows of the temporaries, `temps` of tcg/optimize.c: constants, rings of copies,
-- and the bits that can be set.
pub mod Sound
pub mod Gen
pub mod Copies
pub mod Resets
pub mod Links
pub mod Rings
use fist_ame.Base.{
  ltb, ◌==◌, if◌then◌else◌, update, minus_one, ℕ, zero, suc, Bool, true, false, not, ◌||◌, Option,
  none, some,
}
use fist_ame.Tcg.Op.{Width, i32, i64}

-- tcg_temp_state
pub data TempState : Type 0 where
  temp_undef temp_const temp_copy : TempState

abbrev pub is_const : TempState → Bool
is_const temp_undef = false
is_const temp_const = true
is_const temp_copy = false

abbrev pub is_copy : TempState → Bool
is_copy temp_undef = false
is_copy temp_const = false
is_copy temp_copy = true

-- struct tcg_temp_info, an array for each field.
pub record Temps : Type 0 where
  pub state : ℕ → TempState
  pub prev_copy : ℕ → ℕ
  pub next_copy : ℕ → ℕ
  pub val : ℕ → ℕ
  pub mask : ℕ → ℕ

-- The fields of TCGContext that the optimiser reads.
pub record Context : Type 0 where
  pub nb_temps : ℕ
  pub nb_globals : ℕ
  pub temp_local : ℕ → Bool
  pub type : ℕ → Width

abbrev pub is_i32 : Width → Bool
is_i32 i32 = true
is_i32 i64 = false

abbrev pub same_type : Width → Width → Bool
same_type v w = if is_i32 v then is_i32 w else not (is_i32 w)

-- A temporary leaves its ring.
unfoldable pub unlink : Temps → ℕ → Temps
unlink temps temp =
    let next = temps.next_copy temp in
    let prev = temps.prev_copy temp in
    if is_copy (temps.state temp)
    then (if prev == next
        then record temps { state = update temps.state next temp_undef }
        else record temps {
          prev_copy = update temps.prev_copy next prev;
          next_copy = update temps.next_copy prev next;
        })
    else temps

-- `state = TCG_TEMP_UNDEF; mask = -1`
unfoldable pub forget : Temps → ℕ → Temps
forget temps i = record temps {
  state = update temps.state i temp_undef;
  mask = update temps.mask i minus_one;
}

unfoldable pub reset_temp : Temps → ℕ → Temps
unfolding unlink forget
reset_temp temps temp = forget (unlink temps temp) temp

unfoldable pub reset_all_temps : Temps → ℕ → Temps
unfolding forget
reset_all_temps temps zero = temps
reset_all_temps temps (suc i) = forget (reset_all_temps temps i) i

-- `for (i = temps[temp].next_copy; i != temp; i = temps[i].next_copy) if (...) return i;` from `i` on:
-- none when the fuel runs out, some none when the loop is through.
unfoldable pub search_copies : (ℕ → Bool) → Temps → ℕ → ℕ → ℕ → Option (Option ℕ)
search_copies found temps zero temp i = none
search_copies found temps (suc fuel) temp i =
    let rest = search_copies found temps fuel temp (temps.next_copy i) in
    if i == temp then some none else (if found i then some (some i) else rest)

-- The loop over the other copies; a ring has `nb_temps` members at most.
unfoldable pub other_copy : Context → (ℕ → Bool) → Temps → ℕ → Option ℕ
unfolding search_copies
other_copy s found temps temp =
    elim (search_copies found temps s.nb_temps temp (temps.next_copy temp)) [
      | none ↦ none
      | some r ↦ r
    ]

unfoldable pub find_better_copy : Context → Temps → ℕ → ℕ
unfolding other_copy
find_better_copy s temps temp =
    if ltb temp s.nb_globals
    then temp
    else elim (other_copy s (λ i. ltb i s.nb_globals) temps temp) [
      | some i ↦ i
      | none ↦
          if s.temp_local temp
          then temp
          else elim (other_copy s s.temp_local temps temp) [ some i ↦ i | none ↦ temp ]
    ]

unfoldable pub temps_are_copies : Context → Temps → ℕ → ℕ → Bool
unfolding other_copy
temps_are_copies s temps arg1 arg2 =
    if arg1 == arg2
    then true
    else (if not (is_copy (temps.state arg1)) || not (is_copy (temps.state arg2))
        then false
        else elim (other_copy s (λ i. i == arg2) temps arg1) [ some i ↦ true | none ↦ false ])

-- The copy joins the ring of its source, a ring of one if it is in none.
unfoldable pub link : Temps → ℕ → ℕ → Temps
link temps dst src =
    let is_alone = not (is_copy (temps.state src)) in
    let state1 = if is_alone then update temps.state src temp_copy else temps.state in
    let next1 = if is_alone then update temps.next_copy src src else temps.next_copy in
    let prev1 = if is_alone then update temps.prev_copy src src else temps.prev_copy in
    let next2 = update next1 dst (next1 src) in
    let prev2 = update prev1 dst src in
    record temps {
      state = update state1 dst temp_copy;
      next_copy = update next2 src dst;
      prev_copy = update prev2 (next2 dst) dst;
    }

-- none is the failed assertion that the source is no constant.
unfoldable pub tcg_opt_gen_mov : Context → Temps → ℕ → ℕ → Option Temps
tcg_opt_gen_mov s temps dst src =
    let temps1 = reset_temp temps dst in
    let temps2 = record temps1 { mask = update temps1.mask dst (temps1.mask src) } in
    if is_const (temps2.state src)
    then none
    else some (if same_type (s.type src) (s.type dst) then link temps2 dst src else temps2)

unfoldable pub tcg_opt_gen_movi : Temps → ℕ → ℕ → Temps
tcg_opt_gen_movi temps dst val' =
    let temps' = reset_temp temps dst in
    record temps' {
      state = update temps'.state dst temp_const;
      val = update temps'.val dst val';
      mask = update temps'.mask dst val';
    }
