-- ===== src/Resend/Reading/Answers.antt =====
-- runResend of src/resend/resend.go: what the handler's answers leave, as the finished partitions and
-- the calls of SendMessages, and the records of a partition with what is expected of them.
use air_gap.Common.{
  ◌++◌, ℕ, ◌+◌, List, [], Bool, Bytes, ◌∷◌, if◌then◌else◌, Option, ◌≡◌, refl, ◌∙◌, ap, if_cases,
  some, false, true, none, ltb, ◌&&◌, ◌==◌, not,
}
use air_gap.Common.Integers.{ℤ}
use air_gap.Common.Members.{contains}
use air_gap.Common.Maps.{bytes_eq}
use air_gap.Resend.Reading.{
  ReadEvent, arrived, Delivery, ResendState, Answer, count_resent, answered, crashed, rate_limited,
  and_continue, prepend_calls,
}

-- A record of a partition with its offset, and the packets that are made of it.
pub record Expected : Type 0 where
  pub delivery : Delivery
  pub offset : ℕ
  pub messages : List Bytes

abbrev pub arrival : Expected → ReadEvent
arrival e = arrived e.offset e.delivery

-- What an offset makes the reading send, and what a list of records does.
abbrev pub calls_for : List ℕ → Expected → List (List Bytes)
calls_for positions e = if contains e.offset positions then e.messages ∷ [] else []

abbrev pub missing_calls : List ℕ → List Expected → List (List Bytes)
missing_calls positions [] = []
missing_calls positions (e ∷ es) = calls_for positions e ++ missing_calls positions es

-- The finished partitions and the calls.
abbrev pub summary : Answer → Option (List ℤ × List (List Bytes))
summary (answered keep s calls) = some (s.finished, calls)
summary crashed = none

-- What the limiter lets pass has the same finished partitions.
abbrev pub Keeps : List ℤ → Option ResendState → Type 0
Keeps partitions none = ⊥
Keeps partitions (some s) = s.finished ≡ partitions

abbrev pub ends : Bool → ℤ → List ℤ → List ℤ
ends true partition partitions = partition ∷ partitions
ends false partition partitions = partitions

-- Every record from the last offset on marks the partition.
abbrev pub marked : ℕ → ℤ → List Expected → List ℤ → List ℤ
marked end partition [] partitions = partitions
marked end partition (e ∷ es) partitions =
    marked end partition es (ends (not (ltb e.offset end)) partition partitions)

pub rate_limited-Keeps :
    (interval : ℕ) (s : ResendState) (d : Delivery)
    → d.cancelled ≡ false
    → Keeps s.finished (rate_limited interval s d)
rate_limited-Keeps interval s d go =
    let P = Keeps s.finished in
    if_cases P (interval == 0) (λ _. refl)
      (λ _.
        if_cases P (ltb 0 s.last_send_time && ltb d.now (s.last_send_time + interval))
          (λ _. if_cases P d.cancelled (λ c. cc) (λ _. refl)) (λ _. refl))

pub finished-count_resent :
    (sent : Bool) (n : ℕ) (s : ResendState) → (count_resent sent n s).finished ≡ s.finished
finished-count_resent true n s = refl
finished-count_resent false n s = refl

summary-prepend_calls :
    (h : Answer) (partitions : List ℤ) (calls more : List (List Bytes))
    → summary h ≡ some (partitions, more)
    → summary (prepend_calls calls h) ≡ some (partitions, calls ++ more)
summary-prepend_calls (answered keep s more') partitions calls more e = cc
summary-prepend_calls crashed partitions calls more e = cc

pub summary-and_continue :
    (h : Answer) (k : ResendState → Answer) (partitions later : List ℤ)
    (calls more : List (List Bytes))
    → summary h ≡ some (partitions, calls)
    → ((s : ResendState) → s.finished ≡ partitions → summary (k s) ≡ some (later, more))
    → summary (and_continue h false k) ≡ some (later, calls ++ more)
summary-and_continue (answered keep s calls') k partitions later calls more e rest =
    let finished : s.finished ≡ partitions = cc in
    let same : calls' ≡ calls = cc in
    summary-prepend_calls (k s) later calls' more (rest s finished)
    ∙ ap (λ cs. some (later, cs ++ more)) same
summary-and_continue crashed k partitions later calls more e rest = cc

pub summary-and_stop :
    (h : Answer) (k : ResendState → Answer) (partitions : List ℤ) (calls : List (List Bytes))
    → summary h ≡ some (partitions, calls)
    → summary (and_continue h true k) ≡ some (partitions, calls ++ [])
summary-and_stop (answered keep s calls') k partitions calls e = cc
summary-and_stop crashed k partitions calls e = cc
