-- ===== src/Lib.antt =====
-- Verification library of the air-gap transfer programs (src/ of the repository, in Go): programs
-- that move Kafka events over a data diode in UDP or TCP packets, and the tools that find and
-- resend what is lost.
--
-- The model. A byte is a number, a byte slice or a string a list of bytes, a uint16 a number with
-- `% 65536` written at each operation. A Go map is an association list (Common/Maps). A function
-- that may panic or loop returns an Outcome (Common/Results): returned, panicked, or stuck, which
-- stands for a loop of the model that ran out of fuel. Log records are left out. The clock is an
-- argument.
--
--   Common: shared names; lists, maps, slices and results.
--   Protocol (src/protocol): Protocol/Types (messageTypes.go), Protocol/Checksum and
--     Protocol/Format (formatter.go: nr_messages is NrMessages, format_message is FormatMessage),
--     Protocol/Cache (cache.go: add_part_and_snapshot is AddPartAndSnapshot, clean_list is
--     CleanList, and so on), Protocol/Parse (parser.go: parse_message is ParseMessage,
--     parse_message_id is ParseMessageId, in the stages decode, decode_id, decode_payload and
--     receive_packet). Protocol/Gzip has DecompressGzip of gzip.go. The children of these files
--     prove their properties, and Protocol/Delivery joins the writer and the reader.
--   GapUtil (src/gap_util/gap_util.go): check_next_number is CheckNextNumber, get_first_gaps is
--     GetFirstGaps; GapUtil/Runs relates a run of events to the numbers that have come.
--   Filter (src/filter/filter.go): new_filter is NewFilter, check is Check, do_self_test is
--     doSelfTest; Filter/Periods is about all numbers, Filter/SelfTest about what an accepted
--     expression is known to do.
--   Gaps (src/gaps/gaps.go): parse_gap_key, parse_gap_payload, bitmap_to_ranges and count_missing
--     are the Go functions of these names; Gaps/State has gapState with apply, windows and
--     superseded. The JSON reader (unmarshal) and the bitmap reader (read_bitmap) are parameters
--     without an assumption.
--   Upstream/Memory (src/upstream/memory.go): wait is memoryController.Wait, over the list of
--     what its rounds see (a sample or an error, then the timer or the end of the context) and of
--     the rounds of other calls of Wait on the same controller between them, in the order of the
--     lock.
--   InputFilter (src/inputfilter/inputfilter.go): load_filter_rules, should_filter_out and
--     match_with_timeout are the Go functions of these names; the engine of regular expressions
--     (compile, matching) and read_file are parameters without an assumption.
--   Resend (src/resend/resend.go): filter, is_last, is_partition_in_configured_range and the two
--     maps of partitions are the Go functions of these names. Resend/Requests: parse_file and
--     get_latest_offsets are parseFile and getLatestOffsets. Resend/Reading: handle_record is
--     kafkaHandler of runResend, and read_partition is the loop of ReadToEndPartition
--     (src/kafka/getkafka.go) over the list of what its select meets. JSON, Kafka, the cipher,
--     gzip and the engine of regular expressions are parameters without an assumption.
--   Create (src/create/create.go): write_results is writeResults with its groups (add_window),
--     its sort and its absolute ranges, which go through float64 and JSON (float64); it reads the
--     gapState of Gaps/State, which this file and gaps.go share word for word. Create/Resending
--     joins it with filter of the resend tool.
--   Upstream/Sending (src/upstream/upstream.go): kafka_handler is kafkaHandlerWithContext,
--     send_loop its loop of retries over the list of what the calls of SendMessages come to, and
--     transform_message_id and encode_for_transport are the Go functions of these names.
--     Upstream/Templates (messages.go, ale.go): render_template, render_json_value,
--     lost_event_context and lost_event_payload. The cipher, gzip, JSON, the engine of regular
--     expressions and the path of the file that writeLostEvent writes are parameters without an
--     assumption.
--   Upstream/MessageId (src/upstream/ale.go): split_message_id is splitMessageID.
--   Kafka (src/kafka/startup_retry.go, src/downstream/kafka_retry.go): start_with_retry and
--     new_kafka_producer_with_retry are the two loops, over the list of what happens to their
--     attempts.
--   Downstream (src/downstream): Downstream has the state and sendMessage, translateTopic and
--     IsRotationFrame (src/internal/pinnedtls/rotation_wire.go); Downstream/Keys has
--     readPrivateKeys and readNewKey (communication.go) over the files of the disk;
--     Downstream/Handling has handle_udp_message, which is handleUdpMessage: what leaves the
--     receiver is a list of effects. The cipher, gzip and the files with their parsers are
--     parameters without an assumption. Packets are handled one after the other, as with one
--     worker. The clock counts nanoseconds, and the cache reads it in milliseconds.
--     Downstream/Branches lists the ways in which a packet can end, for the proofs of the other
--     children.
--   Downstream/Tcp (src/downstream/adapters.go): read_message is readMessage, and
--     handle_connection the loop of handleConnection over the bytes of a connection;
--     Downstream/Tcp/Frames joins it with the packets of FormatMessage. The number of rounds is
--     that of the frames read until stopChan closes.
--   Diode: the sender, a transport that reorders and the receiver, together.
--   Upstream/LostEvents (src/upstream/ale.go): the directory of lost events as a map of files;
--     reclaim_lost_event_directory_space is reclaimLostEventDirectorySpaceWithFree, with the
--     compression, deletion and eviction in it, and Upstream/LostEvents/Writing has
--     lostEventFileName and writeLostEvent.
--   Logging/Integrity (src/logging/integrity.go, logging.go): stamp, advance_chain, reset_chain
--     and the anchors are the Go functions of these names, write_event is writeEventLocked. The
--     hash is a parameter; its fixed size is assumed where it is used.
--     Logging/Integrity/Tampering shows what the chain commits to.
--   Logging/Repetition (src/logging/repetition.go, logging.go): suppress is suppressLocked,
--     reset, schedule and timer_fires are resetRepetitionLocked, scheduleRepeatTimerLocked and
--     the function of its timer, and a run is a list of operations with their times.
--   PinnedTls (src/internal/pinnedtls/manager.go, aging.go, rotation_store.go): admit, forget and
--     activate are the methods of Manager, PinnedTls/Aging has purge_idle for purgeIdle and a run
--     of calls, PinnedTls/Rotation has commit_rotation for CommitRotation with the answers of the
--     disk as a parameter, PinnedTls/Rotation/Exchange has handle_rotation for HandleRotation
--     (rotation_exchange.go), PinnedTls/Rotation/Wire has carry for WriteRotation and
--     DecodeRotationFrame (rotation_wire.go), and PinnedTls/Rotation/Client has request_rotation
--     for RequestRotation with its deadline; PinnedTls/Sessions, PinnedTls/Peers,
--     PinnedTls/Rotation/Adding, PinnedTls/Rotation/OneUse and PinnedTls/Rotation/Completing
--     prove their properties.
--   Examples: the theorems at concrete inputs.
--
-- Not modelled: the sockets and the Kafka clients of the sender and the receiver, the reading of
-- configurations, the output and the signatures of the log, the loading of TLS keys, and the
-- sampler of the memory in use. Texts are ASCII where spaces are trimmed or letters lowered.
--
-- Bounds and fuel. Signed integers (Common/Integers) and offsets have no bound: the numbers of
-- the sources stay far below 2^63. len(message) and the position in FormatMessage are int32 in
-- the source and plain numbers here: exact for messages below 2^31 - 65536 bytes. Its loop has
-- one round of fuel more than the message has bytes, and each round takes one byte at least. The
-- loop of assembleMessage has one round more than the parts announced; the model's result endless
-- is ruled out below 65535 parts. MD5 and its hexadecimal text are the parameter md5_hex, of
-- which only the length of 32 digits is assumed.
pub mod Common
pub mod Protocol
pub mod GapUtil
pub mod Filter
pub mod InputFilter
pub mod Gaps
pub mod Resend
pub mod Create
pub mod Upstream
pub mod Kafka
pub mod Downstream
pub mod Diode
pub mod Logging
pub mod PinnedTls
pub mod Examples
