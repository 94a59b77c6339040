-- ===== src/Crawler/Operation.antt =====
-- src/playlist_crawler.hh: the life of a crawler operation. `told` is what the crawler was told by
-- the operation, last first.
use drcpd.Common.{
  ℕ, ◌+◌, Bool, true, false, not, ◌&&◌, Option, none, some, List, [], ◌∷◌, ltb, if◌then◌else◌,
  u32_max,
}

pub data OpDone : Type 0 where
  yielding finished : OpDone

pub data OpState : Type 0 where
  not_started running done failed canceling canceled : OpState

pub data CompletionCallbackFilter : Type 0 where
  unfiltered suppress_canceled : CompletionCallbackFilter

-- Of the callbacks is kept whether they are set.
pub record OperationBase : Type 0 where
  pub state_ : OpState
  pub was_canceled_after_done_ : Bool
  pub started_counter_ : ℕ
  pub yielded_counter_ : ℕ
  pub completion_callback_filter_ : CompletionCallbackFilter
  pub op_done_notification_callback_ : Bool
  pub completion_callback_ : Bool
  pub told : List OpDone

unfoldable pub construct : CompletionCallbackFilter → Bool → OperationBase
construct filter callback = record {
  state_ = OpState.not_started;
  was_canceled_after_done_ = false;
  started_counter_ = 0;
  yielded_counter_ = 0;
  completion_callback_filter_ = filter;
  op_done_notification_callback_ = false;
  completion_callback_ = callback;
  told = [];
}

unfoldable pub is_op_active : OperationBase → Bool
is_op_active o = elim o.state_ [
  | OpState.not_started ↦ false
  | OpState.running ↦ true
  | OpState.done ↦ false
  | OpState.failed ↦ false
  | OpState.canceling ↦ false
  | OpState.canceled ↦ false
]

unfoldable pub is_op_canceled : OperationBase → Bool
is_op_canceled o = elim o.state_ [
  | OpState.not_started ↦ o.was_canceled_after_done_
  | OpState.running ↦ o.was_canceled_after_done_
  | OpState.done ↦ o.was_canceled_after_done_
  | OpState.failed ↦ o.was_canceled_after_done_
  | OpState.canceling ↦ true
  | OpState.canceled ↦ true
]

unfoldable pub tell : OperationBase → OpDone → Option OperationBase
tell o status =
    if o.op_done_notification_callback_ then some (record o { told = status ∷ o.told }) else none

unfoldable pub yielded : OperationBase → Option OperationBase
unfolding tell
yielded o = tell (record o { yielded_counter_ = o.yielded_counter_ + 1 }) OpDone.yielding

unfoldable pub operation_yield : OperationBase → Option OperationBase
unfolding yielded
operation_yield o = elim o.state_ [
  | OpState.running ↦ yielded o
  | OpState.canceling ↦ yielded o
  | OpState.not_started ↦ some o
  | OpState.done ↦ some o
  | OpState.failed ↦ some o
  | OpState.canceled ↦ some o
]

-- The crawler is told and forgotten.
unfoldable pub finish_as : OperationBase → OpState → Option OperationBase
finish_as o state =
    if o.op_done_notification_callback_
    then some (record o {
      state_ = state;
      told = OpDone.finished ∷ o.told;
      op_done_notification_callback_ = false;
    })
    else none

unfoldable pub operation_finished : Bool → OperationBase → Option OperationBase
unfolding finish_as
operation_finished is_successful o = elim o.state_ [
  | OpState.running ↦ finish_as o (if is_successful then OpState.done else OpState.failed)
  | OpState.canceling ↦ finish_as o OpState.canceled
  | OpState.canceled ↦ finish_as o OpState.canceled
  | OpState.not_started ↦ some o
  | OpState.done ↦ some o
  | OpState.failed ↦ some o
]

-- Also tells whether `do_cancel` is called.
unfoldable pub cancel : OperationBase → OperationBase × Bool
cancel o = elim o.state_ [
  | OpState.not_started ↦ (record o { state_ = OpState.canceling }, true)
  | OpState.running ↦ (record o { state_ = OpState.canceling }, true)
  | OpState.done ↦ (record o { was_canceled_after_done_ = true }, false)
  | OpState.failed ↦ (record o { was_canceled_after_done_ = true }, false)
  | OpState.canceling ↦ (o, false)
  | OpState.canceled ↦ (o, false)
]

-- Up to the call of `do_start`, and whether that is called; the callback is set in any case.
unfoldable pub begin : OperationBase → OperationBase × Bool
begin o' =
    let o = record o' { op_done_notification_callback_ = true } in
    let refused : OperationBase × Bool = (o, false) in
    elim o.state_ [
      | OpState.not_started ↦ (
        record o {
          started_counter_ =
              if ltb o.started_counter_ u32_max then o.started_counter_ + 1 else o.started_counter_;
          state_ = OpState.running;
        },
        true,
      )
      | OpState.running ↦ refused
      | OpState.done ↦ refused
      | OpState.failed ↦ refused
      | OpState.canceling ↦ refused
      | OpState.canceled ↦ refused
    ]

-- Does the caller get called, and what is left of the operation?
unfoldable pub notify_caller_template : OperationBase → OperationBase × Bool
notify_caller_template o =
    let o' = record o { completion_callback_ = false } in
    (
      o',
      o.completion_callback_
          && not (elim o.state_ [
            | OpState.canceled ↦ elim o.completion_callback_filter_ [
              | CompletionCallbackFilter.unfiltered ↦ false
              | CompletionCallbackFilter.suppress_canceled ↦ true
            ]
            | OpState.not_started ↦ false
            | OpState.running ↦ false
            | OpState.done ↦ false
            | OpState.failed ↦ false
            | OpState.canceling ↦ false
          ]),
    )

unfoldable pub notify_caller : OperationBase → OperationBase × Bool
unfolding notify_caller_template
notify_caller o = elim o.state_ [
  | OpState.done ↦ notify_caller_template o
  | OpState.failed ↦ notify_caller_template o
  | OpState.canceled ↦ notify_caller_template o
  | OpState.not_started ↦ (o, false)
  | OpState.running ↦ (o, false)
  | OpState.canceling ↦ (o, false)
]
