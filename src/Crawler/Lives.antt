-- ===== src/Crawler/Lives.antt =====
-- The life of a crawler operation (src/playlist_crawler.hh).
use drcpd.Common.{
  ℕ, suc, ◌≡◌, Bool, true, false, not, ◌&&◌, Option, none, some, List, [], ◌∷◌, ◌==◌, if◌then◌else◌,
  arith, refl,
}
use drcpd.Crawler.Operation.{
  OpDone, OpState, CompletionCallbackFilter, OperationBase, construct, operation_yield, yielded,
  tell, operation_finished, finish_as, cancel, begin, notify_caller, notify_caller_template,
}

-- What happens to an operation after its start.
pub data OpEvent : Type 0 where
  yields : OpEvent
  finishes : Bool → OpEvent
  cancels : OpEvent
  notifies : OpEvent

unfoldable pub step : OperationBase → OpEvent → Option OperationBase
step o yields = operation_yield o
step o (finishes ok) = operation_finished ok o
step o cancels = some (cancel o).0
step o notifies = some (notify_caller o).0

unfoldable pub run : OperationBase → List OpEvent → Option OperationBase
run o [] = some o
run o (e ∷ es) = elim (step o e) [ none ↦ none | some o' ↦ run o' es ]

unfoldable pub times_finished : List OpDone → ℕ
times_finished [] = 0
times_finished (OpDone.yielding ∷ told) = times_finished told
times_finished (OpDone.finished ∷ told) = suc (times_finished told)

unfoldable pub has_ended : OpState → Bool
has_ended OpState.not_started = false
has_ended OpState.running = false
has_ended OpState.done = true
has_ended OpState.failed = true
has_ended OpState.canceling = false
has_ended OpState.canceled = true

is_sound_by : OpState → OperationBase → Bool
is_sound_by OpState.not_started o = false
is_sound_by OpState.running o = o.op_done_notification_callback_ && (times_finished o.told == 0)
is_sound_by OpState.canceling o = o.op_done_notification_callback_ && (times_finished o.told == 0)
is_sound_by OpState.done o = not o.op_done_notification_callback_ && (times_finished o.told == 1)
is_sound_by OpState.failed o = not o.op_done_notification_callback_ && (times_finished o.told == 1)
is_sound_by OpState.canceled o =
    not o.op_done_notification_callback_ && (times_finished o.told == 1)

is_sound : OperationBase → Bool
is_sound o = is_sound_by o.state_ o

sound_or_none : Option OperationBase → Bool
sound_or_none none = true
sound_or_none (some o) = is_sound o

step_by :
    (s : OpState) (o : OperationBase) (e : OpEvent)
    → is_sound_by s o ≡ true
    → sound_or_none (step (record o { state_ = s }) e) ≡ true
unfolding step is_sound is_sound_by sound_or_none times_finished operation_yield yielded tell
    operation_finished finish_as cancel notify_caller notify_caller_template
step_by OpState.not_started o e h = absurd (ground (arith, h))
step_by OpState.running o yields h = ground arith
step_by OpState.running o (finishes true) h = ground arith
step_by OpState.running o (finishes false) h = ground arith
step_by OpState.running o cancels h = ground arith
step_by OpState.running o notifies h = ground arith
step_by OpState.canceling o yields h = ground arith
step_by OpState.canceling o (finishes ok) h = ground arith
step_by OpState.canceling o cancels h = ground arith
step_by OpState.canceling o notifies h = ground arith
step_by OpState.done o yields h = ground arith
step_by OpState.done o (finishes ok) h = ground arith
step_by OpState.done o cancels h = ground arith
step_by OpState.done o notifies h = ground arith
step_by OpState.failed o yields h = ground arith
step_by OpState.failed o (finishes ok) h = ground arith
step_by OpState.failed o cancels h = ground arith
step_by OpState.failed o notifies h = ground arith
step_by OpState.canceled o yields h = ground arith
step_by OpState.canceled o (finishes ok) h = ground arith
step_by OpState.canceled o cancels h = ground arith
step_by OpState.canceled o notifies h = ground arith

step_sound : (o : OperationBase) (e : OpEvent) → is_sound o ≡ true → sound_or_none (step o e) ≡ true
unfolding is_sound
step_sound o e h = step_by o.state_ o e h

then_sound :
    (x : Option OperationBase) (es : List OpEvent) (o' : OperationBase)
    → sound_or_none x ≡ true
    → ((o1 : OperationBase) → is_sound o1 ≡ true → run o1 es ≡ some o' → is_sound o' ≡ true)
    → (elim x as (λ _. Option OperationBase) [ none ↦ none | some o1 ↦ run o1 es ]) ≡ some o'
    → is_sound o' ≡ true
unfolding sound_or_none
then_sound none es o' s f q = absurd (ground (arith, q))
then_sound (some o1) es o' s f q = f o1 s q

run_sound :
    (o o' : OperationBase) (es : List OpEvent)
    → is_sound o ≡ true
    → run o es ≡ some o'
    → is_sound o' ≡ true
unfolding run
run_sound o o' [] h r = ground (arith, r, h)
run_sound o o' (e ∷ es) h r =
    then_sound (step o e) es o' (step_sound o e h) (λ o1 s q. run_sound o1 o' es s q) r

sound-told :
    (s : OpState) (o : OperationBase)
    → is_sound_by s o ≡ true
    → times_finished o.told ≡ (if has_ended s then 1 else 0)
unfolding is_sound_by has_ended
sound-told OpState.not_started o h = absurd (ground (arith, h))
sound-told OpState.running o h = ground arith
sound-told OpState.canceling o h = ground arith
sound-told OpState.done o h = ground arith
sound-told OpState.failed o h = ground arith
sound-told OpState.canceled o h = ground arith

-- Whatever happens to an operation after its start has succeeded, unless an exception is thrown, the
-- crawler is told once that it has finished if it is done, failed or canceled, and has not been told yet otherwise.
pub run-told :
    (filter : CompletionCallbackFilter) (callback : Bool) (es : List OpEvent) (o : OperationBase)
    → run (begin (construct filter callback)).0 es ≡ some o
    → times_finished o.told ≡ (if has_ended o.state_ then 1 else 0)
unfolding begin construct is_sound is_sound_by times_finished
run-told filter callback es o r =
    sound-told o.state_ o (run_sound (begin (construct filter callback)).0 o es refl r)
