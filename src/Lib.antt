-- ===== src/Lib.antt =====
-- carbon-runtime: the process that runs an agent on a box, and the store it keeps there.
--
-- Every adapter writes one record shape into one store, and the runtime releases what arrived to the
-- agent, fences what the agent replies, and sends it. This library models the store with what a
-- client taught; the channel's file with the poll that writes it, the adapter's lock, and the latch
-- that keeps a broken agent down; of the import of history, the reader of its zip and the join that
-- finds what was sent; and of the adapters, the latch of WhatsApp and the positions of Telegram.
--
-- The parts:
--
--   Common               shared names; texts as lists of UTF-16 code units; maps as association lists.
--   Stream.Platform      what comes from the JavaScript engine and Node, as parameters: the UTF-8
--                        codec, SHA-256, Date.parse and RegExp.test.
--   Stream.Fault         stream/faults.ts.
--   Stream.Encode        stream/encode.ts: componentFaults, encodeComponent, decodeComponent.
--   Stream.Paths         resolveUnderStore, and Store.paths and recordFileName of stream/store.ts.
--   Stream.Json          a parsed JSON value.
--   Stream.Spread        `{ ...a, ...b }`, on an object as its fields.
--   Stream.Validate      stream/validate.ts.
--   Stream.Record        the record of one message.
--   Stream.Store         stream/store.ts. The state is the tree of files and the browser's projection;
--                        a method is an action that returns or throws, and leaves a state either way.
--     Files              nextSeq, publishBrowserChange, the reads, and the rewrite of a record.
--     Cursor             cursors, advanceCursor.
--     Capture            capture, park, parkFailed, annotate, setDisposition, mergeRecords.
--     Hold               heldUntil, isHeld, release, completeRelease.
--     Reply              reply, settleDelivery, releaseHeldReply, markSent, markUnknown, markFailed.
--     Thread             threadFile, writeThread, readThread.
--     Steps              a sequence of calls of the methods.
--   Stream.Teachings     stream/teachings.ts. A teaching is the JSON object that its file holds; the
--                        state is the directory, a list of files by name.
--     Write              writeTeaching, inSchemaOrder, teachingId, freeId.
--     Learn              citedCapture, remember, raiseChange, forget.
--   Stream.Tests, Stream.Teachings.Tests   concrete runs, on the inputs of Stream.Samples.
--   Runtime.Channel      runtime/channel-state.ts: the file of a channel, which the poll and the
--                        channel's adapter each own a block of.
--   Runtime.Poll         runtime/poll.ts, and `poll` of runtime/loop.ts.
--   Runtime.Lock         runtime/lock.ts: takeLock, call by call of the file system, with any number of
--                        processes interleaved.
--   Runtime.Latch        runtime/latch.ts and the exit codes of runtime/faults.ts. The state is the
--                        directory `channels/`.
--   Adapters.WhatsappLatch   adapters/whatsapp/latch.ts, on the same directory.
--   Adapters.TelegramCursors   adapters/telegram/cursors.ts, over the store's cursors.
--   Import.Zip           import/zip.ts: the end record, the 64-bit directory, the entries. A buffer is
--                        the list of its bytes, and a read outside it is an error that is thrown.
--     Crc                CRC_TABLE and crc32, on words as lists of bits.
--     Open               entryKind, readEntry, open.
--   Import.Link          import/outbound-link.ts: joinOutbound, with the sort and nearestSend. The
--                        pool of sends is a list, and a place in it stands for a reference to a send.
--   Runtime.Tests, Runtime.Latch.Tests, Adapters.WhatsappLatch.Tests,
--   Adapters.TelegramCursors.Tests,
--   Import.Tests, Import.Zip.Tests   concrete runs.
--
-- The methods call one another as in the source: reply calls capture, which calls validate, paths,
-- nextSeq, setDisposition and, in its finally, advanceCursor. The channel's file takes its path from
-- stream/encode.ts as the store's files do, and so do the lock and the latch; a declared number is a
-- value of Stream.Json. `latch` writes the file that `refuseIfLatched` finds at the next
-- start, and so does the WhatsApp adapter's writeLatch.
--
-- What a fault says to a reader (problem, fix) is left out but in a latch, which keeps it; so are
-- file modes and the text form of JSON, and a time is given: a file is read back as it was written,
-- and each write is whole. Times are
-- milliseconds from 1970 on. Not modelled: the attachments' files, the release pass and the delivery
-- of runtime/loop.ts, and the rest of runtime/, import/, adapters/, records/, harness/ and tools/.
--
-- Recursion is on lists and values, but for the decimal digits of a number, whose fuel is the number
-- plus one, which is never used up, and freeId, which tries as often as the source. The entries of a
-- zip are counted by its end record, and the search for that record by the places that it may be at.
pub mod Adapters
pub mod Common
pub mod Stream
pub mod Import
pub mod Runtime
