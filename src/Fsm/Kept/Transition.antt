-- ===== src/Fsm/Kept/Transition.antt =====
-- What a whole call of `state_transition` in src/fsm/fsm.c never changes.
use dnsconfd.Env.{Env}
use dnsconfd.Context.{Context}
use dnsconfd.Fsm.Transition.{Ending, slept, rejected, crashed, exhausted}
use dnsconfd.Fsm.Kept.{Keeps}

-- Where the call returns, the context keeps what `c` has.
abbrev EndKeeps : Context → Ending → Type 0
EndKeeps c (slept d) = Keeps c d
EndKeeps c (rejected d) = Keeps c d
EndKeeps c crashed = Unit
EndKeeps c exhausted = Unit
