-- ===== src/Agent/Loop/Retried.antt =====
-- The responses that agent-loop.ts streams again, among the messages whose end it emits.
use mathlib.Core.List.{append_assoc}
use Prim.Native.Nat.{◌^◌}
use crabbykit.Prelude.{
  ℕ, zero, suc, ◌+◌, ◌*◌, ◌≡◌, refl, ◌∙◌, ap, Bool, true, false, List, [], ◌∷◌, ◌++◌, on_branches,
  if◌then◌else◌, get_or_else,
}
use crabbykit.Agent.{AssistantMessage, Message, assistant, Config, Run}
use crabbykit.Agent.Tools.Quiet.{ended}
use crabbykit.Agent.Loop.{drop_last, stream_assistant_response, retry, respond, wants_retry}
use crabbykit.Agent.Loop.Context.Response.{stream_assistant_response-Says}

-- The second messages are the first without some responses, each of which failed transiently.
pub data SkipsRetried : List Message → List Message → Type 0 where
  all_seen : SkipsRetried [] []
  seen : {ms ns : List Message} (m : Message) → SkipsRetried ms ns → SkipsRetried (m ∷ ms) (m ∷ ns)
  skipped :
      {ms ns : List Message} (m : AssistantMessage)
      → wants_retry m ≡ true
      → SkipsRetried ms ns
      → SkipsRetried (assistant m ∷ ms) ns

pub SkipsRetried-refl : (ms : List Message) → SkipsRetried ms ms
SkipsRetried-refl [] = all_seen
SkipsRetried-refl (m ∷ ms) = seen m (SkipsRetried-refl ms)

pub SkipsRetried-append :
    {ls ms ns os : List Message}
    → SkipsRetried ls ms
    → SkipsRetried ns os
    → SkipsRetried (ls ++ ns) (ms ++ os)
SkipsRetried-append all_seen q = q
SkipsRetried-append (seen m p) q = seen m (SkipsRetried-append p q)
SkipsRetried-append (skipped m again p) q = skipped m again (SkipsRetried-append p q)

on_true :
    {A : Type 0} (P : A → Type 0) (b : Bool) {x y : A}
    → (b ≡ true → P x)
    → P y
    → P (if b then x else y)
on_true P true f q = f refl
on_true P false f q = q

module _ {W : Type 0} (c : Config W) where
  -- After the messages that had ended before, some responses that failed transiently, and the answer.
  abbrev pub Tells : List Message → AssistantMessage × Run W → Type 0
  Tells before r =
      (failed : List Message) × SkipsRetried failed []
      × (ended r.1.events ≡ before ++ (failed ++ assistant r.0 ∷ []))

  Tells-once :
      (before : List Message) (r : AssistantMessage × Run W)
      → ended r.1.events ≡ before ++ assistant r.0 ∷ []
      → Tells before r
  Tells-once before r h = ([], all_seen, h)

  Tells-after :
      (before : List Message) (m : AssistantMessage) (r : AssistantMessage × Run W)
      → wants_retry m ≡ true
      → Tells (before ++ assistant m ∷ []) r
      → Tells before r
  Tells-after before m r again (failed, skips, h) = (
    assistant m ∷ failed,
    skipped m again skips,
    h ∙ append_assoc before (assistant m ∷ []) (failed ++ assistant r.0 ∷ []),
  )

  retry-Tells :
      (left attempt : ℕ) (before : List Message) (m : AssistantMessage) (s : Run W)
      → wants_retry m ≡ true
      → ended s.events ≡ before ++ assistant m ∷ []
      → Tells before (retry c left attempt m s)
  unfolding retry
  retry-Tells zero attempt before m s again h = Tells-once before (m, s) h
  retry-Tells (suc left) attempt before m s again h =
      let w = c.wait (get_or_else c.base_retry_delay_ms 1000 * 2 ^ attempt) s.world in
      let s0 : Run W = record s { world = w } in
      let s1 : Run W = record s { context = drop_last s.context; world = w } in
      let r = stream_assistant_response c s1 in
      let says : ended r.1.events ≡ (before ++ assistant m ∷ []) ++ assistant r.0 ∷ [] =
        (stream_assistant_response-Says c s1).said ∙ ap (λ ms. ms ++ assistant r.0 ∷ []) h in
      on_branches (Tells before) (c.is_aborted s.world) (Tells-once before (m, s) h) (
        on_branches (Tells before) (c.is_aborted w) (Tells-once before (m, s0) h) (
          on_true (Tells before) (wants_retry r.0)
            (λ more.
              Tells-after before m (retry c left (attempt + 1) r.0 r.1) again
                (retry-Tells left (attempt + 1) (before ++ assistant m ∷ []) r.0 r.1 more says))
            (Tells-after before m r again (Tells-once (before ++ assistant m ∷ []) r says))))

  pub respond-Tells : (s : Run W) → Tells (ended s.events) (respond c s)
  unfolding respond
  respond-Tells s =
      let first = stream_assistant_response c s in
      let says = (stream_assistant_response-Says c s).said in
      on_true (Tells (ended s.events)) (wants_retry first.0)
        (λ again.
          retry-Tells (get_or_else c.max_stream_retries 2) 0 (ended s.events) first.0 first.1 again
            says)
        (Tells-once (ended s.events) first says)
