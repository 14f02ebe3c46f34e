-- ===== src/Lib.antt =====
-- Verification of the parts of sing-quic that carry a flow's bytes across several lanes: the shared
-- memory budget, the frame codec, the reassembly of segments, the sender's record of what has been
-- acknowledged, the scheduler that stripes a stream over the lanes, the backlog of received events,
-- the destinations and datagrams that sessions carry, Hysteria 2's messages and the fragments of
-- datagrams; and of the containers, estimators and pacers below the congestion controllers.
--
-- How the parts meet. A sender cuts a stream into segments and sends each as a frame (`AppendFrame`,
-- `WriteFrame`); the receiver reads frames (`ReadFrame`, `ParseFrame`) and inserts their payloads into
-- the flow's `Reassembler`, which hands over contiguous bytes and charges what it has to keep to the
-- client's shared `Budget`. The striping `Scheduler` says which chunk of the stream each lane sends,
-- and takes its memory from the same budget. What the receiver holds out of order (`ReceivedRanges`)
-- goes back in an acknowledgement (`EncodeAckRanges`, `DecodeAckRanges`), and the sender's
-- `ackTracker` collects it.
--
-- Files and code:
--   MemLimit, MemLimit/Flows     queqiao/internal/memlimit/budget.go. `charge`, `try_acquire`,
--     `acquire`, `acquire_pass`, `wake`, `release` and `snapshot` are the critical sections; `Step` in
--     Flows lets any flow run any of them in any order, as the mutex allows.
--   Frame, Frame/Writing         queqiao/internal/protocol/frame.go, the header and the frames.
--     `encode`, `validate`, `decode_header`, `parse_frame`, `append_frame`, `read_frame`,
--     `write_frame`, `write_full` have the code's names. An io.Writer is a parameter, a record with
--     the promise of its documentation; io.ReadFull reads from the bytes that a stream still holds.
--   AckRanges                    the same file, `EncodeAckRanges` and `DecodeAckRanges`.
--   SeqMap                       the map and the sorted keys of queqiao/internal/multipath/
--     reassembly.go (`insertOrder`, `removeOrder`, sort.Search).
--   Reassembly, Reassembly/Report  the same file: `Insert` in its parts `insert_new`,
--     `check_neighbours`, `insert_ahead` and `consume_contiguous`, then `Close` and `ReceivedRanges`.
--   AckTrack                     queqiao/internal/pep/acktrack.go. `mergeLocked` is `merge`,
--     `compactLocked` is `compact`, `coveredLocked` is `covered_in`.
--   Stripe                       queqiao/internal/stripe/stripe.go: the state. Lanes has the lanes'
--     accounts, Ready `takeReadyLocked` and a round of `Next`, Finish `Complete`, `Fail`, `RetireLane` and
--     `Wrote`, Reissue `ReissueUnacknowledgedBelow` and `ReissueExpired`, Produce the sections of
--     `produce`, `markEOFLocked` and `Close`. `Step` in Stripe/Inv/Steps lets lanes, timers, the producer
--     and the budget's other users interleave.
--   Session                      queqiao/internal/session: open.go, packet.go and session.go, with the
--     code's names. Texts are bytes; an IP address is the text that it prints as.
--   HostPort                     what Session uses of Go's strings, net and strconv. Errors that are
--     told apart nowhere are `none`.
--   RingBuffer                   congestion_meta2/ringbuffer.go.
--   PacketQueue                  congestion_meta2/packet_number_indexed_queue.go, on the ring. A packet
--     number is not negative, the invalid number is `none`, and the callback of `Remove` is the entry
--     that it is handed. The first packet is `none` only in a queue without entries, which the
--     theorems keep, so that no arithmetic on the invalid number takes place.
--   Backlog                      queqiao/internal/pep/inbound_queue.go: `enqueueInbound` and the rounds of
--     `pumpInbound`. `Step` in Backlog/Order lets lane readers, pump and receiving loop interleave.
--   Fragments                    hysteria2/packet.go, `fragUDPMessage` and `feed` of its defragmenter.
--   Hysteria2                    hysteria2/internal/protocol/proxy.go, and `pack`, `headerSize` and
--     `decodeUDPMessage` of hysteria2/packet.go. quicvarint.Read and quicvarint.Len are parameters that
--     keep to RFC 9000, the paddings and the length of a destination's domain name are arguments.
--   WindowedFilter               congestion_meta2/windowed_filter.go, with the parts of `Update` named
--     `place`, `promote` and `renew`.
--   SlowStart                    congestion_meta1/hybrid_slow_start.go.
--   Pacer                        congestion_meta1/pacer.go. The bandwidth in force is an argument of
--     each operation.
--   RatePacer                    congestion_queqiao/pacer.go. `Pacer.rounded_up` is shared; the QUIC
--     library's constants are parameters.
-- The other files hold proofs, and each Tests file has runs on concrete values.
--
-- State is passed explicitly. A pointer to the shared budget is an argument that comes back; a panic
-- and an error are outcomes. Numbers are natural numbers; sums and differences of uint64 are taken
-- modulo 2 ^ 64 where the code lets them wrap, and byte counts of the budget are int64 that stay below
-- its capacity.
--
-- Fuel. `consume` runs on the number of buffered entries and one more, `compact_loop` on the number of
-- ranges that the first pass keeps and one more, `write_loop` on the length of the buffer. Each round
-- takes an entry, a range or a byte away; `trim_left` and `trim_right` run on the length of the text,
-- `itoa` on the number and one more; `clear_loop` and `remove_loop` run on the length of the
-- queue and one more, `cut` on the length of the payload. Running out is an outcome (`stuck`, `none`)
-- that the theorems exclude.
--
-- Not modelled: copying of slices, of which nothing later depends on the alias; network I/O,
-- goroutines, timers and the controllers' floating-point rates; third-party QUIC and TLS.
pub mod Prelude
pub mod MemLimit
pub mod Frame
pub mod AckRanges
pub mod HostPort
pub mod Session
pub mod SeqMap
pub mod Reassembly
pub mod AckTrack
pub mod Backlog
pub mod Fragments
pub mod Hysteria2
pub mod RingBuffer
pub mod PacketQueue
pub mod Pacer
pub mod RatePacer
pub mod Stripe
pub mod WindowedFilter
pub mod SlowStart
