-- ===== src/Pingpong/Group.antt =====
-- Which error a task group reports.
use batchudp.Prelude.{
  ◌≡◌, refl, Option, none, some, List, [], ◌∷◌, if◌then◌else◌, inl, inr, Bool-cases,
}
use batchudp.Std.{Err}
use batchudp.Pingpong.{
  is_canceled, Event, returns, parent_done, new_task_group, fail, happens, happen, wait_group,
}

-- The first error of a task that is not a cancellation.
unfoldable pub first_failure : List Event → Option Err
first_failure [] = none
first_failure (returns none ∷ es) = first_failure es
first_failure (returns (some e) ∷ es) =
    let rest = first_failure es in if is_canceled e then rest else some e
first_failure (parent_done e ∷ es) = first_failure es

-- The first cause from outside.
unfoldable pub first_done : List Event → Option Err
first_done [] = none
first_done (returns r ∷ es) = first_done es
first_done (parent_done e ∷ es) = some e

abbrev pub or_else {ℓ} : {A : Type ℓ} → Option A → Option A → Option A
or_else (some a) b = some a
or_else none b = b

abbrev pub not_canceled : Option Err → Option Err
not_canceled none = none
not_canceled (some e) = if is_canceled e then none else some e

-- what `Wait` gives, by the two fields and what is still to come
abbrev reported : Option Err → Option Err → List Event → Option Err
reported e c es = or_else e (or_else (first_failure es) (not_canceled (or_else c (first_done es))))

-- a failure, where what comes behind it is known
fail-reported :
    (es : List Event)
    → ((e c : Option Err)
        → wait_group (happen es (record { group_err = e; cause = c })) ≡ reported e c es)
    → (e c : Option Err) (x : Err)
    → wait_group (happen es (fail x (record { group_err = e; cause = c }))) ≡ or_else e (some x)
unfolding fail
fail-reported es behind (some e) c x = behind (some e) c
fail-reported es behind none none x = behind (some x) (some x)
fail-reported es behind none (some c) x = behind (some x) (some c)

wait_group-happen_from :
    (es : List Event) (e c : Option Err)
    → wait_group (happen es (record { group_err = e; cause = c })) ≡ reported e c es
unfolding wait_group happen happens fail first_failure first_done
wait_group-happen_from [] (some e) c = refl
wait_group-happen_from [] none none = refl
wait_group-happen_from [] none (some c) = refl
wait_group-happen_from (returns none ∷ es) e c = wait_group-happen_from es e c
wait_group-happen_from (parent_done x ∷ es) e none = wait_group-happen_from es e (some x)
wait_group-happen_from (parent_done x ∷ es) e (some c) = wait_group-happen_from es e (some c)
wait_group-happen_from (returns (some x) ∷ es) e c = elim (Bool-cases (is_canceled x)) [
  | inl canceled ↦ rw (canceled, happens, first_failure) (wait_group-happen_from es e c)
  | inr failure ↦
      rw (failure, happens, first_failure)
        (fail-reported es (λ e c. wait_group-happen_from es e c) e c x)
]

-- In whatever order the tasks of a group return and its parent's context is done: `Wait` reports the
-- error of the task that was the first to fail, cancellations aside; where none has failed, the
-- cause with which the parent's context was done, unless that is a cancellation; else nothing.
pub wait_group-happen :
    (es : List Event)
    → wait_group (happen es new_task_group)
      ≡ or_else (first_failure es) (not_canceled (first_done es))
wait_group-happen es = wait_group-happen_from es none none
