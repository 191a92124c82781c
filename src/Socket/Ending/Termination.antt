-- ===== src/Socket/Ending/Termination.antt =====
-- How long the end of a relay in socket.go takes, and where it comes to rest.
use proxify.Common.{
  ℕ, suc, ◌+◌, ◌≤◌, ◌<◌, ◌≡◌, refl, Bool, true, false, arith, inl, inr, ◌⊎◌, Bool-cases,
}
use proxify.Socket.Ending.{
  Relay, Position, looping, sending, marking, returned, opened, enter_err, Step, fail_left,
  fail_right, receive_left, receive_right, mark_left, mark_right, Reach, here, next, IsSound,
  Reach-IsSound,
}

-- The steps of a pipe before its send, and after it.
abbrev own : Position → ℕ
own looping = 1
own sending = 0
own marking = 1
own returned = 0

-- The one send and the assignment that follows it.
abbrev shared : Bool → ℕ
shared true = 0
shared false = 2

abbrev remaining : Relay → ℕ
remaining s = own s.left + own s.right + shared s.closed

abbrev pub steps : {s t : Relay} → Reach s t → ℕ
steps here = 0
steps (next r st) = suc (steps r)

Step-remaining : {s t : Relay} → Step s t → remaining t < remaining s
unfolding enter_err
Step-remaining (fail_left s h) = ground arith
Step-remaining (fail_right s h) = ground arith
Step-remaining (receive_left s h c) = ground arith
Step-remaining (receive_right s h c) = ground arith
Step-remaining (mark_left s h) = ground arith
Step-remaining (mark_right s h) = ground arith

steps-remaining : {s t : Relay} (r : Reach s t) → steps r + remaining t ≤ remaining s
steps-remaining here = omega arith
steps-remaining (next r st) = omega (arith, steps-remaining r, Step-remaining st)

-- A pipe has returned, or waits at its send.
abbrev IsAtRest : Position → Type 0
IsAtRest p = (p ≡ returned) ⊎ (p ≡ sending)

pub record IsSettled (s : Relay) : Type 0 where
  pub received : s.closed ≡ true
  pub marked : s.erred ≡ true
  pub left_rests : (s.left ≡ returned) ⊎ (s.left ≡ sending)
  pub right_rests : (s.right ≡ returned) ⊎ (s.right ≡ sending)

Position-cases : (p : Position) → (p ≡ looping) ⊎ (p ≡ marking) ⊎ IsAtRest p
Position-cases looping = inl refl
Position-cases sending = inr (inr (inr refl))
Position-cases marking = inr (inl refl)
Position-cases returned = inr (inr (inl refl))

-- Both pipes at rest: the receiver is served, or a pipe waits for it.
rest-progress :
    (s : Relay)
    → IsSound s
    → IsAtRest s.left
    → IsAtRest s.right
    → ((t : Relay) × Step s t) ⊎ IsSettled s
rest-progress s i (inr l) r = elim (Bool-cases s.closed) [
  | inl c ↦ inr (record {
    received = c;
    marked = ground (arith, i.unmarked c, l, r);
    left_rests = inr l;
    right_rests = r;
  })
  | inr c ↦ inl (_, receive_left s l c)
]
rest-progress s i (inl l) (inr r) = elim (Bool-cases s.closed) [
  | inl c ↦
      inr (record { received = c; marked = i.left_done l; left_rests = inl l; right_rests = inr r })
  | inr c ↦ inl (_, receive_right s r c)
]
rest-progress s i (inl l) (inl r) = inr (record {
  received = i.marked (i.left_done l);
  marked = i.left_done l;
  left_rests = inl l;
  right_rests = inl r;
})

progress : (s : Relay) → IsSound s → ((t : Relay) × Step s t) ⊎ IsSettled s
progress s i = elim (Position-cases s.left) [
  | inl l ↦ inl (_, fail_left s l)
  | inr (inl l) ↦ inl (_, mark_left s l)
  | inr (inr l) ↦ elim (Position-cases s.right) [
    | inl r ↦ inl (_, fail_right s r)
    | inr (inl r) ↦ inl (_, mark_right s r)
    | inr (inr r) ↦ rest-progress s i l r
  ]
]

settled-ends : {s t : Relay} → Step s t → IsSettled s → ⊥
settled-ends (fail_left s h) e = ground arith
settled-ends (fail_right s h) e = ground arith
settled-ends (receive_left s h c) e = ground arith
settled-ends (receive_right s h c) e = ground arith
settled-ends (mark_left s h) e = ground arith
settled-ends (mark_right s h) e = ground arith

-- Every run of a relay's end has at most four steps, and in the state that it reaches either a
-- step is possible, or none is: then `fullduplex` has received, the flag is set, and each pipe
-- has returned or waits at its send.
pub Reach-ends :
    {s : Relay} (r : Reach opened s)
    → (steps r ≤ 4) × (((t : Relay) × Step s t) ⊎ (IsSettled s × ((t : Relay) → ¬ Step s t)))
Reach-ends {s} r = (
  omega (arith, steps-remaining r),
  elim (progress s (Reach-IsSound r)) [
    | inl step ↦ inl step
    | inr settled ↦ inr (settled, λ t st. settled-ends st settled)
  ],
)
