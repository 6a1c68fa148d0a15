-- ===== src/Resend/Reading/Missing.antt =====
-- runResend of src/resend/resend.go: which records of a partition the reading of it sends, when the
-- resend file names the missing offsets as ranges.
use air_gap.Common.{
  ◌++◌, ℕ, List, [], Bool, Bytes, ◌∷◌, if◌then◌else◌, Option, ◌≡◌, refl, ◌∙◌, ap, if_cases, ◌⊎◌,
  some, false, true, none, ltb, ◌&&◌, length, returned, not, ap₂, All, map,
}
use air_gap.Common.Integers.{ℤ, pos, ltℤ, eqℤ, eqℤ-refl}
use air_gap.Common.Text.{split}
use air_gap.Common.Members.{contains}
use air_gap.InputFilter.{Matching, should_filter_out}
use air_gap.Resend.{
  GapResult, JsonFilter, filter, is_last, is_for, filter_type, all,
  map_upstream_to_downstream_partition,
}
use air_gap.Gaps.{bitmap_to_ranges}
use air_gap.Common.Maps.{bytes_eq, beq_refl}
use air_gap.Resend.Selecting.{filter-bitmap_to_ranges}
use air_gap.Resend.Reading.{
  ReadEvent, Delivery, TransferConfiguration, ResendState, Answer, rate_limited, and_continue,
  place_of, send_id, resend_packets, compressed_or_plain, filtered_payload, handle_record,
  read_partition, finish_if, or_cancelled, selected, send_packed, count_received, judge,
}
use air_gap.Resend.Reading.Answers.{
  Expected, arrival, calls_for, missing_calls, summary, Keeps, ends, marked, rate_limited-Keeps,
  finished-count_resent, summary-and_continue, summary-and_stop,
}

module _ {ℓ} {R : Type ℓ} (config : TransferConfiguration R)
    (encrypt : Bytes → Bytes → Bytes ⊎ Bytes) (md5_hex : Bytes → Bytes)
    (compress : Bytes → Option Bytes) (matching : R → Bytes → Matching) where
  -- The record is of the topic and the partition, its time is in the window, the wait before its
  -- send is not cancelled, and its packing gives the packets.
  pub record Fits (topic : Bytes) (upstream : ℤ) (e : Expected) : Type 0 where
    pub place : place_of (split b'_' e.delivery.id) ≡ (topic, (upstream, pos e.offset))
    pub not_before : ltb e.delivery.time config.from_time ≡ false
    pub not_after : ltb config.to_time e.delivery.time ≡ false
    pub goes_on : e.delivery.cancelled ≡ false
    pub packing :
        resend_packets config encrypt md5_hex compress matching
          (send_id e.delivery.id
            (map_upstream_to_downstream_partition upstream config.partition_start_value)
            (split b'_' e.delivery.id))
          (compressed_or_plain config encrypt md5_hex compress matching (
            filtered_payload config encrypt md5_hex compress matching e.delivery.payload
              (should_filter_out matching config.input_filter e.delivery.payload)))
        ≡ returned e.messages

  summary-or_cancelled :
      (s : ResendState) (last : Bool) (partition : ℤ) (d : Delivery) (messages : List Bytes)
      (o : Option ResendState)
      → Keeps s.finished o
      → summary
          (or_cancelled config encrypt md5_hex compress matching s last partition d messages o)
        ≡ some (ends last partition s.finished, messages ∷ [])
  summary-or_cancelled s true partition d messages (some s') keeps =
      ap (λ fs. some (partition ∷ fs, messages ∷ []))
        (finished-count_resent d.arrives (length messages) s' ∙ keeps)
  summary-or_cancelled s false partition d messages (some s') keeps =
      ap (λ fs. some (fs, messages ∷ []))
        (finished-count_resent d.arrives (length messages) s' ∙ keeps)
  summary-or_cancelled s false partition d messages none keeps = elim keeps [ ]
  summary-or_cancelled s true partition d messages none keeps = elim keeps [ ]

  summary-finish_if :
      (s : ResendState) (last : Bool) (partition : ℤ)
      → summary (finish_if config encrypt md5_hex compress matching last partition s [])
        ≡ some (ends last partition s.finished, [])
  summary-finish_if s true partition = refl
  summary-finish_if s false partition = refl

  -- One record.
  summary-selected :
      (s : ResendState) (last wanted : Bool) (topic : Bytes) (upstream : ℤ) (e : Expected)
      → Fits topic upstream e
      → (let partition =
            map_upstream_to_downstream_partition upstream config.partition_start_value in
          summary (
            selected config encrypt md5_hex compress matching s last partition e.delivery
              (send_id e.delivery.id partition (split b'_' e.delivery.id))
              (returned wanted))
          ≡ some (ends last partition s.finished, if wanted then e.messages ∷ [] else []))
  summary-selected s last false topic upstream e fits =
      summary-finish_if s last
        (map_upstream_to_downstream_partition upstream config.partition_start_value)
  summary-selected s last true topic upstream e fits =
      let partition = map_upstream_to_downstream_partition upstream config.partition_start_value in
      ap
        (λ o.
          summary
            (send_packed config encrypt md5_hex compress matching s last partition e.delivery o))
        fits.packing
      ∙ summary-or_cancelled s last partition e.delivery e.messages
          (rate_limited config.min_interval s e.delivery)
          (rate_limited-Keeps config.min_interval s e.delivery fits.goes_on)

  module _ (f : JsonFilter) (g : GapResult) (positions : List ℕ) (upstream : ℤ) (end : ℕ)
      (kind : filter_type f.type_text ≡ all) (results : f.results ≡ g ∷ [])
      (gaps : g.gaps ≡ bitmap_to_ranges positions)
      (here : map_upstream_to_downstream_partition upstream config.partition_start_value
        ≡ g.partition)
      (stop : g.last_offset ≡ pos end) where
    own :
        is_for g.topic
          (map_upstream_to_downstream_partition upstream config.partition_start_value)
          g
        ≡ true
    own =
        ap₂ (λ a b. a && b) (beq_refl {K = Bytes} g.topic)
          (ap (eqℤ g.partition) here ∙ eqℤ-refl g.partition)

    is_last-here :
        (n : ℕ)
        → is_last f.results g.topic
            (map_upstream_to_downstream_partition upstream config.partition_start_value)
            (pos n)
          ≡ not (ltb n end)
    unfolding is_last ltℤ
    is_last-here n =
        ap
          (λ gs.
            is_last gs g.topic
              (map_upstream_to_downstream_partition upstream config.partition_start_value) (pos n))
          results
        ∙ ap (λ b. if b then not (ltℤ (pos n) g.last_offset) else false) own
        ∙ ap (λ z. not (ltℤ (pos n) z)) stop

    filter-here :
        (n : ℕ)
        → filter f g.topic
            (map_upstream_to_downstream_partition upstream config.partition_start_value)
            (pos n)
          ≡ returned (contains n positions)
    filter-here n =
        filter-bitmap_to_ranges f g positions g.topic _ n kind results gaps
        ∙ ap (λ b. returned (b && contains n positions)) own

    summary-handle_record :
        (s : ResendState) (e : Expected)
        → Fits g.topic upstream e
        → summary (handle_record config encrypt md5_hex compress matching f s e.delivery)
          ≡ some (ends (not (ltb e.offset end)) g.partition s.finished, calls_for positions e)
    unfolding handle_record
    summary-handle_record s e fits =
        let before = fits.not_before in
        let after = fits.not_after in
        let received = count_received s in
        let id =
          send_id e.delivery.id
            (map_upstream_to_downstream_partition upstream config.partition_start_value)
            (split b'_' e.delivery.id) in
        let P : Answer → Type 0 = λ a.
          summary a
          ≡ some (ends (not (ltb e.offset end)) g.partition s.finished, calls_for positions e) in
        ap (λ p. summary (judge config encrypt md5_hex compress matching f received e.delivery p))
          fits.place
        ∙ if_cases P (ltb e.delivery.time config.from_time) (λ c. cc)
            (λ _.
              if_cases P (ltb config.to_time e.delivery.time) (λ c. cc)
                (λ _.
                  ap₂
                    (λ last o. summary (
                      selected config encrypt md5_hex compress matching received last
                        (map_upstream_to_downstream_partition upstream config.partition_start_value)
                        e.delivery id o))
                    (is_last-here e.offset) (filter-here e.offset)
                  ∙ summary-selected received (not (ltb e.offset end)) (contains e.offset positions)
                      g.topic upstream e fits
                  ∙ ap
                      (λ p.
                        some (ends (not (ltb e.offset end)) p s.finished, calls_for positions e))
                      here))

    -- With the type all and one result whose gaps are the ranges of bitmapToRanges, the loop over
    -- its partition, which gets records below the final offset, then one at or behind it, and then
    -- anything, sends exactly the packets of those records whose offsets the bitmap holds, in their
    -- order, each in one call of SendMessages, whether it succeeds or not, and marks the partition at every record from the
    -- last offset of the result on. It holds with and without a filter, compression, encryption, a
    -- limiter and failed sends, for records with an id of three parts, of the topic and partition of
    -- the result and of the time window, whose packing gives packets and whose wait in the limiter
    -- is not cancelled.
    pub read_partition-missing :
        (before : List Expected) (last : Expected) (final : ℕ) (rest : List ReadEvent)
        (s : ResendState)
        → All (Fits g.topic upstream) before
        → Fits g.topic upstream last
        → All (λ e. ltb e.offset final ≡ true) before
        → ltb last.offset final ≡ false
        → summary (
            read_partition config encrypt md5_hex compress matching f final s
              (map arrival before ++ arrival last ∷ rest))
          ≡ some (
            marked end g.partition (before ++ last ∷ []) s.finished,
            missing_calls positions (before ++ last ∷ []),
          )
    unfolding read_partition
    read_partition-missing [] last final rest s fit fits early late =
        ap
          (λ b. summary (
            and_continue (handle_record config encrypt md5_hex compress matching f s last.delivery)
              (not b)
              (λ s'. read_partition config encrypt md5_hex compress matching f final s' rest)))
          late
        ∙ summary-and_stop
            (handle_record config encrypt md5_hex compress matching f s last.delivery) _ _ _
            (summary-handle_record s last fits)
    read_partition-missing (e ∷ es) last final rest s fit fits early late =
        let next : ResendState → Answer = λ s'.
          read_partition config encrypt md5_hex compress matching f final s'
            (map arrival es ++ arrival last ∷ rest) in
        ap
          (λ b. summary (
            and_continue (handle_record config encrypt md5_hex compress matching f s e.delivery)
              (not b) next))
          early.0
        ∙ summary-and_continue
            (handle_record config encrypt md5_hex compress matching f s e.delivery) next _ _ _ _
            (summary-handle_record s e fit.0)
            (λ s' same.
              read_partition-missing es last final rest s' fit.1 fits early.1 late
              ∙ ap
                  (λ fs. some (
                    marked end g.partition (es ++ last ∷ []) fs,
                    missing_calls positions (es ++ last ∷ []),
                  ))
                  same)
