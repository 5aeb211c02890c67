-- ===== src/Lib.antt =====
-- Omarchy WhatsApp: a daemon that keeps the history of a linked WhatsApp account in SQLite, sends what
-- its clients queue, and publishes what changes to them over a socket. The development models the
-- parts of the daemon that decide what is stored, counted, sent and published.
--
-- Protocol       crates/protocol/src/lib.rs: messages, media, quotes and commands.
-- Outbox         crates/daemon/src/database.rs, the table text_outbox. Outbox.Text has its rows and
--                one function per method of Database that changes it (enqueue_text_message,
--                claim_text_message, fail_, retry_, complete_, discard_text_message, the recovery in
--                open, and the statement of clear_account_data); `step` and `run` compose them. Its
--                children follow one delivery ID (Moves, Lifecycle), say which row is claimed (Order,
--                Claims), what an enqueue does (Enqueue), and how many rows wait (Queue, Others).
-- Outbox.Delivery    crates/daemon/src/outbox.rs: deliver_pending_text and the inner loop of
--                run_text_outbox over the table of Outbox.Text. send_claimed_text is a parameter,
--                and so is what others do to the table before each claim and during each send.
-- Outbox.Reads       crates/daemon/src/outbox.rs: deliver_pending_read over Database.ReadQueue.
-- Outbox.Validation  crates/daemon/src/text_outbox.rs: what a message has to satisfy to be queued.
-- Voice          crates/daemon/src/voice_outbox.rs: the directory of recordings and metadata files,
--   Ogg          ogg_opus_duration_ms, the loop over the pages of a recording;
--   Jobs         the jobs in the files: load_jobs, save_job, assign_delivery, mark_failed, finish_sent;
--   Cleanup      cleanup_inner with its sweeps and evictions;
--   Sending      prepare, recover_interrupted and entries.
-- Paste          crates/daemon/src/paste.rs: types and dimensions of pasted images (Image), offered types
--                and file names (Names), and what is staged (Staging).
-- Assets         crates/daemon/src/assets.rs: the names of cached files (hex_key and the paths), what is
--                removed with a message or a chat (Removal), which jid an avatar file is listed under
--                (Avatars) and the budget of a cache (Pruning).
-- Database       crates/daemon/src/database.rs, the history: the rows of its tables, and
--   ReadQueue    queue_read_receipts, next_read_batch and finish_read_batch;
--   Insert       insert_message_into with its guards and its callers; prune_chat_history;
--   Unread       the counter chats.unread against the messages that it counts;
--   Retention    how many messages of a chat are left;
--   ReadState    apply_read_boundary and all that calls it, reconcile_unread_after_full_sync;
--   Removal      delete_chat, clear_chat and delete_message;
--   History      runs of inserts, of the calls of ReadState and of those of Removal;
--   Reactions    apply_reaction;
--   Polls        apply_poll_vote with the tallies of its poll;
--   Receipts     update_receipts;
--   Settings     apply_pin_at, apply_archive_at, apply_mute_at and is_muted;
--   Names        update_contact_name_into and its callers, update_group_name, contact_name and
--                insert_history_chat_into.
-- Inbox          the table inbound_inbox of crates/daemon/src/database.rs: commit_inbound_batch,
--                pending_inbound and finish_inbound, with the types of crates/daemon/src/inbound.rs.
-- Connections    crates/daemon/src/connections.rs: ConnectionIntents.
-- Revisions      crates/daemon/src/revisions.rs: RevisionClock, and ServerFrame of the protocol crate.
-- Jobs           crates/daemon/src/jobs.rs: timeout and conflict_key.
-- State          crates/daemon/src/state.rs: InvalidationCoalescer, AvatarCoalescer with
--                AvatarBroadcaster (Avatars), and PhoneNumberMisses (Misses).
-- Presence       crates/daemon/src/presence.rs: reconcile_connection_intent, over ConnectionState.
-- Prelude        tables and the statements on them, i64 as signed integers, texts, bytes, results,
--                and the rows that ORDER BY … DESC LIMIT n leaves.
--
-- A table is the list of its rows in rowid order, an UPDATE or a DELETE is a function on that list,
-- and a transaction is one function from the old tables to the new ones; an error leaves the old
-- tables. SQLite answers each statement: failures of its own (a full disk, a locked file) are not
-- modelled. Among rows that the ORDER BY of a statement leaves equal, which SQL leaves open, the
-- model takes the one of the lowest rowid, as the index on chat and time does. The same holds where
-- two senders of a chat use one message ID and a statement looks up the ID alone. serde_json is a
-- parameter (Prelude.Json): a printer, a parser and equality of the printed texts; where a theorem
-- needs it, a printed value parses back. Columns that the modelled statements neither read nor
-- write (phone numbers, download keys) are left out, and the reader lists of a message, which the
-- database fills in when it answers a query. Timestamps are i64 and do not wrap in these
-- statements; the one subtraction saturates, as in the source. Counters of 64 bits wrap or saturate
-- as they do there. Fuel bounds five loops, with the bound proved to be enough: `connect` takes one
-- round for each connection and one more, the pages of a recording and the segments of a JPEG one
-- round for each byte and one more at most, since each moves the cursor, the evictions of a cleanup
-- one for each job, and the delivery loop one for each message that waits or that others add, and
-- one more. A directory is the list of its files, by the ID in the name of each; reading, writing
-- and removing a file succeed. A symbolic link in the place of a recording is an entry of its own.
-- outbox_name, which reads the ID off a name, is not modelled. The jid of the network library, with
-- its parser, is a parameter of Presence and of Outbox.Reads, and the Unicode test
-- char::is_alphanumeric is one of Outbox.Validation. Paste.Staging takes the clipboard, the files,
-- the conversion by ffmpeg and the decoding of percent signs and of foreign bytes. Not modelled:
-- the network client, the socket, notifications, downloads, I/O errors, migrations of old databases
-- and of aliases, the reset of the account but for the text outbox, and the queries that only list.
mod Prelude
pub mod Protocol
pub mod Database
pub mod Outbox
pub mod Connections
pub mod Revisions
pub mod Jobs
pub mod State
pub mod Assets
pub mod Paste
pub mod Voice
pub mod Presence
pub mod Inbox
