-- ===== src/Socket/Ending.antt =====
-- The end of a relay in socket.go: two pipes that call `err`, and `fullduplex`, which waits for
-- one value on the unbuffered channel `errsig` and returns.
pub mod Termination
use proxify.Common.{◌≡◌, ◌≢◌, Bool, true, false, arith, ◌⊎◌}

-- Where a pipe stands: in its loop, at the send in `err`, between the send and the assignment of
-- `erred`, or returned.
pub data Position : Type 0 where
  looping sending marking returned : Position

-- The shared state: the two pipes, the flag `erred`, and whether `fullduplex` has received.
pub record Relay : Type 0 where
  pub left : Position
  pub right : Position
  pub erred : Bool
  pub closed : Bool

abbrev pub opened : Relay
opened = record { left = looping; right = looping; erred = false; closed = false }

-- `err` tests the flag on its entry.
unfoldable pub enter_err : Bool → Position
enter_err true = returned
enter_err false = sending

pub data Step : Relay → Relay → Type 0 where
  fail_left : (s : Relay) → s.left ≡ looping → Step s (record s { left = enter_err s.erred })
  fail_right : (s : Relay) → s.right ≡ looping → Step s (record s { right = enter_err s.erred })
  receive_left :
      (s : Relay)
      → s.left ≡ sending
      → s.closed ≡ false
      → Step s (record s { left = marking; closed = true })
  receive_right :
      (s : Relay)
      → s.right ≡ sending
      → s.closed ≡ false
      → Step s (record s { right = marking; closed = true })
  mark_left : (s : Relay) → s.left ≡ marking → Step s (record s { left = returned; erred = true })
  mark_right :
      (s : Relay) → s.right ≡ marking → Step s (record s { right = returned; erred = true })

pub data Reach (s : Relay) : Relay → Type 0 where
  here : Reach s s
  next : {t u : Relay} → Reach s t → Step t u → Reach s u

pub record IsSound (s : Relay) : Type 0 where
  pub marked : s.erred ≡ true → s.closed ≡ true
  pub left_sent : s.left ≡ marking → s.closed ≡ true
  pub right_sent : s.right ≡ marking → s.closed ≡ true
  pub one_sender : (s.left ≡ marking) → s.right ≢ marking
  pub left_unset : s.left ≡ marking → s.erred ≡ false
  pub right_unset : s.right ≡ marking → s.erred ≡ false
  pub left_done : s.left ≡ returned → s.erred ≡ true
  pub right_done : s.right ≡ returned → s.erred ≡ true
  pub unmarked : s.closed ≡ true → s.erred ≡ false → (s.left ≡ marking) ⊎ (s.right ≡ marking)

Step-IsSound : {s t : Relay} → Step s t → IsSound s → IsSound t
unfolding enter_err
Step-IsSound (fail_left s h) i = ground arith
Step-IsSound (fail_right s h) i = ground arith
Step-IsSound (receive_left s h c) i = ground arith
Step-IsSound (receive_right s h c) i = ground arith
Step-IsSound (mark_left s h) i = ground arith
Step-IsSound (mark_right s h) i = ground arith

Reach-IsSound_from : {s t : Relay} → IsSound s → Reach s t → IsSound t
Reach-IsSound_from i here = i
Reach-IsSound_from i (next r st) = Step-IsSound st (Reach-IsSound_from i r)

opened-IsSound : IsSound opened
opened-IsSound = ground arith

-- In every state that a relay reaches: the flag is set only after `fullduplex` has received, at
-- most one pipe is between its send and the flag, and the flag is not set while one is there, a
-- pipe returns only after the flag is set, and once `fullduplex` has received, the flag is set
-- or a pipe is about to set it.
pub Reach-IsSound : {s : Relay} → Reach opened s → IsSound s
Reach-IsSound r = Reach-IsSound_from opened-IsSound r

-- A pipe waits at its send, and nobody is left to receive.
abbrev pub IsStuck : (Relay → Position) → Relay → Type 0
IsStuck side s = (side s ≡ sending) × (s.closed ≡ true)

Step-IsStuck_left : {s t : Relay} → Step s t → IsStuck (λ r. r.left) s → IsStuck (λ r. r.left) t
Step-IsStuck_left (fail_left s h) i = ground arith
Step-IsStuck_left (fail_right s h) i = i
Step-IsStuck_left (receive_left s h c) i = ground arith
Step-IsStuck_left (receive_right s h c) i = ground arith
Step-IsStuck_left (mark_left s h) i = ground arith
Step-IsStuck_left (mark_right s h) i = i

Step-IsStuck_right : {s t : Relay} → Step s t → IsStuck (λ r. r.right) s → IsStuck (λ r. r.right) t
Step-IsStuck_right (fail_left s h) i = i
Step-IsStuck_right (fail_right s h) i = ground arith
Step-IsStuck_right (receive_left s h c) i = ground arith
Step-IsStuck_right (receive_right s h c) i = ground arith
Step-IsStuck_right (mark_left s h) i = i
Step-IsStuck_right (mark_right s h) i = ground arith

Reach-IsStuck_left : {s t : Relay} → Reach s t → IsStuck (λ r. r.left) s → IsStuck (λ r. r.left) t
Reach-IsStuck_left here i = i
Reach-IsStuck_left (next r st) i = Step-IsStuck_left st (Reach-IsStuck_left r i)

Reach-IsStuck_right :
    {s t : Relay} → Reach s t → IsStuck (λ r. r.right) s → IsStuck (λ r. r.right) t
Reach-IsStuck_right here i = i
Reach-IsStuck_right (next r st) i = Step-IsStuck_right st (Reach-IsStuck_right r i)

-- If the left pipe has sent and has not yet set the flag when the right one leaves its loop,
-- the right pipe waits at its send for ever: it does so in every state reached from there, and
-- `fullduplex` has received its one value.
pub late_sender-IsStuck :
    {s t : Relay}
    → Reach opened s
    → s.left ≡ marking
    → s.right ≡ looping
    → Reach (record s { right = enter_err s.erred }) t
    → IsStuck (λ r. r.right) t
unfolding enter_err
late_sender-IsStuck {s} reached l r later =
    let i = Reach-IsSound reached in
    Reach-IsStuck_right later (ground (arith, i.left_unset l), i.left_sent l)
