-- ===== src/Schedule/Laws.antt =====
-- How often a cycle of the head-end is completed.
use atlascode.Prelude.{
  ℕ, zero, suc, ◌≤◌, ◌≡◌, refl, ap, ◌∙◌, inl, inr, Bool, true, false, List, [], ◌∷◌, Option, none,
  some, ◌==◌, if◌then◌else◌, Bool-cases, ==_refl, arith,
}
use atlascode.Prelude.Signed.{ℤ, pos, negsuc, eq_ℤ}
use atlascode.Schedule.{
  HesCycleState, bit, set_bit, mark_hes_cycle_done, start_cycle, run_cycle,
  get_cycle_id_from_minute, new_hour, client_hes_cycle_schedule, tick, completed,
}

bit-set_bit : (i m : ℕ) → i ≤ 3 → bit i (set_bit i m) ≡ true
bit-set_bit zero m h = ground arith
bit-set_bit (suc zero) m h = ground arith
bit-set_bit (suc (suc zero)) m h = ground arith
bit-set_bit (suc (suc (suc zero))) m h = ground arith
bit-set_bit (suc (suc (suc (suc i)))) m h = absurd (omega arith)

bit_kept : (i j m : ℕ) → i ≤ 3 → j ≤ 3 → bit j m ≡ true → bit j (set_bit i m) ≡ true
bit_kept zero zero m h k e = ground arith
bit_kept zero (suc zero) m h k e = ground arith
bit_kept zero (suc (suc zero)) m h k e = ground arith
bit_kept zero (suc (suc (suc zero))) m h k e = ground arith
bit_kept (suc zero) zero m h k e = ground arith
bit_kept (suc zero) (suc zero) m h k e = ground arith
bit_kept (suc zero) (suc (suc zero)) m h k e = ground arith
bit_kept (suc zero) (suc (suc (suc zero))) m h k e = ground arith
bit_kept (suc (suc zero)) zero m h k e = ground arith
bit_kept (suc (suc zero)) (suc zero) m h k e = ground arith
bit_kept (suc (suc zero)) (suc (suc zero)) m h k e = ground arith
bit_kept (suc (suc zero)) (suc (suc (suc zero))) m h k e = ground arith
bit_kept (suc (suc (suc zero))) zero m h k e = ground arith
bit_kept (suc (suc (suc zero))) (suc zero) m h k e = ground arith
bit_kept (suc (suc (suc zero))) (suc (suc zero)) m h k e = ground arith
bit_kept (suc (suc (suc zero))) (suc (suc (suc zero))) m h k e = ground arith
bit_kept (suc (suc (suc (suc i)))) j m h k e = absurd (omega arith)
bit_kept i (suc (suc (suc (suc j)))) m h k e = absurd (omega arith)

cycle_id-bound : (minute i : ℕ) → get_cycle_id_from_minute minute ≡ pos i → i ≤ 3
unfolding get_cycle_id_from_minute
cycle_id-bound minute i e = ground arith

-- What a turn does to a state of the hour: no cycle is completed, or one that was not yet done.
data Turn (s s' : HesCycleState) : Option ℕ → Type 0 where
  nothing : s'.last_hour ≡ s.last_hour → s'.done_mask ≡ s.done_mask → Turn s s' none
  cycle :
      (i : ℕ)
      → i ≤ 3
      → bit i s.done_mask ≡ false
      → s'.last_hour ≡ s.last_hour
      → s'.done_mask ≡ set_bit i s.done_mask
      → Turn s s' (some i)

start_cycle-Turn :
    (z : ℤ) (activity : Bool) (s : HesCycleState)
    → ((i : ℕ) → z ≡ pos i → i ≤ 3)
    → Turn s (run_cycle activity (start_cycle z s)).1 (run_cycle activity (start_cycle z s)).0
unfolding run_cycle start_cycle mark_hes_cycle_done
start_cycle-Turn (negsuc n) activity s h = nothing refl refl
start_cycle-Turn (pos i) false s h = elim (Bool-cases (bit i s.done_mask)) [
  | inl e ↦ rw e (nothing refl refl)
  | inr e ↦ rw e (nothing refl refl)
]
start_cycle-Turn (pos i) true s h = elim (Bool-cases (bit i s.done_mask)) [
  | inl e ↦ rw e (nothing refl refl)
  | inr e ↦ rw e (cycle i (h i refl) e refl (rw e refl))
]

tick-Turn :
    (hour minute : ℕ) (activity : Bool) (s : HesCycleState)
    → Turn (new_hour hour s) (tick hour minute activity s).1 (tick hour minute activity s).0
unfolding tick client_hes_cycle_schedule
tick-Turn hour minute activity s =
    start_cycle-Turn (get_cycle_id_from_minute minute) activity (new_hour hour s)
      (λ i e. cycle_id-bound minute i e)

eq_ℤ_sound : (a b : ℤ) → eq_ℤ a b ≡ true → a ≡ b
eq_ℤ_sound (pos a) (pos b) h = ground arith
eq_ℤ_sound (pos a) (negsuc b) h = ground arith
eq_ℤ_sound (negsuc a) (pos b) h = ground arith
eq_ℤ_sound (negsuc a) (negsuc b) h = ground arith

new_hour-last_hour : (hour : ℕ) (s : HesCycleState) → (new_hour hour s).last_hour ≡ pos hour
unfolding new_hour
new_hour-last_hour hour s = elim (Bool-cases (eq_ℤ s.last_hour (pos hour))) [
  | inl e ↦ rw e (eq_ℤ_sound s.last_hour (pos hour) e)
  | inr e ↦ rw e refl
]

new_hour_same : (hour : ℕ) (s : HesCycleState) → s.last_hour ≡ pos hour → new_hour hour s ≡ s
unfolding new_hour
new_hour_same hour s h =
    let e : eq_ℤ s.last_hour (pos hour) ≡ true = rw h (==_refl hour) in rw e refl

-- How often a cycle stands in a list.
abbrev pub count : ℕ → List ℕ → ℕ
count c [] = 0
count c (i ∷ is) = if c == i then suc (count c is) else count c is

-- How often it may still be completed.
abbrev left : ℕ → ℕ → ℕ
left c mask = if bit c mask then 0 else 1

left-bound : (c mask : ℕ) → left c mask ≤ 1
left-bound c mask = ground arith

count-completed :
    (hour : ℕ) (turns : List (ℕ × Bool)) (s : HesCycleState) (c : ℕ)
    → c ≤ 3
    → count c (completed hour turns s) ≤ left c (new_hour hour s).done_mask
unfolding completed
count-completed hour [] s c h = omega arith
count-completed hour ((minute, activity) ∷ turns) s c h =
    go (new_hour hour s) (tick hour minute activity s).1 (tick hour minute activity s).0
      (new_hour-last_hour hour s) (tick-Turn hour minute activity s)
      (count-completed hour turns (tick hour minute activity s).1 c h)
  where
    go :
        (s s' : HesCycleState) (r : Option ℕ)
        → s.last_hour ≡ pos hour
        → Turn s s' r
        → count c (completed hour turns s') ≤ left c (new_hour hour s').done_mask
        → count c (elim r [ none ↦ completed hour turns s' | some i ↦ i ∷ completed hour turns s' ])
          ≤ left c s.done_mask
    go s s' r same (nothing e f) ih =
        let stay =
          ap (λ (t : HesCycleState). left c t.done_mask) (new_hour_same hour s' (e ∙ same)) in
        let mask = ap (left c) f in omega (arith, ih, stay, mask)
    go s s' r same (cycle i b new e f) ih =
        let stay =
          ap (λ (t : HesCycleState). left c t.done_mask) (new_hour_same hour s' (e ∙ same)) in
        let mask = ap (left c) f in
        let rest : count c (completed hour turns s') ≤ left c (set_bit i s.done_mask) =
          omega (arith, ih, stay, mask) in
        elim (Bool-cases (c == i)) [
          | inl q ↦
              let eq : i ≡ c = ground arith in
              let none_left : left c (set_bit i s.done_mask) ≡ 0 =
                rw (eq, bit-set_bit c s.done_mask h) refl in
              let none_yet : left c s.done_mask ≡ 1 = rw (rw eq at new) refl in rw q (omega arith)
          | inr q ↦ rw q (elim (Bool-cases (bit c s.done_mask)) [
            | inl k ↦
                let kept : left c (set_bit i s.done_mask) ≡ 0 =
                  rw (bit_kept i c s.done_mask b h k) refl in
                omega arith
            | inr k ↦
                let all : left c s.done_mask ≡ 1 = rw k refl in
                let some_left = left-bound c (set_bit i s.done_mask) in omega arith
          ])
        ]

-- Within an hour none of the four cycles is completed twice, whatever the turns and whatever the
-- state before.
pub completed_at_most_once :
    (hour : ℕ) (turns : List (ℕ × Bool)) (s : HesCycleState) (c : ℕ)
    → c ≤ 3
    → count c (completed hour turns s) ≤ 1
completed_at_most_once hour turns s c h =
    let most = left-bound c (new_hour hour s).done_mask in
    let sum = count-completed hour turns s c h in omega arith
