-- ===== src/Tests/Registries.antt =====
-- The pool of threads, the channels of a server and the requests of a client at concrete inputs.
use echo_frame.Base.{
  ℕ, ◌-◌, ◌*◌, ◌+◌, ◌<◌, ◌≡◌, refl, Bool, true, false, Option, none, some, List, [], ◌∷◌, ◌++◌,
  arith, length, replicate, length-replicate, ltb, leb, ◌==◌, if◌then◌else◌, take, drop,
}
use echo_frame.Base.Loops.{new_loop}
use echo_frame.Base.Bytes.{to_bytes}
use echo_frame.Base.OrdMap.{lookup, IsSorted}
use echo_frame.Buffer.Memory.{Malloc}
use echo_frame.Buffer.SkBuffer.{SkBuffer}
use echo_frame.Buffer.IoBuf.{done}
use echo_frame.Protocol.Message.{MagicMessage, blank, decode}
use echo_frame.Client.Sessions.{make_request_id, new_session}
use echo_frame.Client.Clients.{ClientConfig, NetClient, Clients}
use echo_frame.Client.Requests.{put_client, start_session, job_for, handle_packet}
use echo_frame.Server.EventLoops.{
  Channel, EventLoop, EventLoopManager, find_channel, add_channel, remove_channel, on_idle, since,
  unless_late, channels_lem,
}
use echo_frame.Util.ThreadPool.{
  checks, act_at, Worker, Pool, Event, exec, acts, goes_on, step, run, stop_after_all_done,
  all_gone,
}
use echo_frame.Util.ThreadQueue.{pop_front}
use echo_frame.Util.ThreadPool.Fifo.{accepted, run-log}
use echo_frame.Util.ThreadPool.Draining.{stop_after_all_done_lem}
use echo_frame.Client.Requests.Delivery.{handle_packet-once}

-- Two workers, and jobs of which those above 2 can be called.
abbrev callable : ℕ → Bool
callable = ltb 2

abbrev fresh : Worker ℕ
fresh = record { exit = false; exit_after_done = false; phase = checks }

abbrev pair : Pool ℕ
pair = record { workers = fresh ∷ fresh ∷ []; job_queue = 7 ∷ 8 ∷ []; taken = [] }

abbrev go : ℕ → Event ℕ
go n = acts n (goes_on true)

abbrev turns : List (Event ℕ)
turns = go 0 ∷ exec 9 ∷ go 1 ∷ go 1 ∷ go 0 ∷ []

run-log_example :
    (run callable pair turns).taken ++ (run callable pair turns).job_queue
    ≡ ([] ++ (7 ∷ 8 ∷ [])) ++ accepted turns
run-log_example = run-log callable pair turns

-- Each worker takes a job, runs it, and goes when it sees that none is left.
abbrev last_turns : List (Event ℕ)
last_turns = go 0 ∷ go 1 ∷ go 1 ∷ go 0 ∷ go 0 ∷ go 1 ∷ go 0 ∷ go 1 ∷ []

pair_live : all_gone pair.workers ≡ false
unfolding all_gone
pair_live = refl

last_quiet : accepted last_turns ≡ []
unfolding accepted
last_quiet = refl

last_gone : all_gone (run callable (stop_after_all_done pair) last_turns).workers ≡ true
unfolding all_gone run step stop_after_all_done pop_front act_at
last_gone = refl

stop_after_all_done_lem_example :
    (run callable (stop_after_all_done pair) last_turns).taken ≡ [] ++ (7 ∷ 8 ∷ [])
stop_after_all_done_lem_example =
    stop_after_all_done_lem callable pair last_turns pair_live last_quiet last_gone

abbrev channel : ℕ → Channel
channel n = record { uid = n; last_receive_time = 100 }

abbrev late_channel : Channel → Bool
late_channel c = leb c.uid 5

abbrev two_channels : EventLoop
two_channels = record { entries = (4, channel 4) ∷ (6, channel 6) ∷ []; last_check_time = 90 }

abbrev manager : EventLoopManager
manager = record { loops = two_channels ∷ new_loop 0 ∷ []; cur_index = 0 }

two-IsSorted : IsSorted two_channels.entries
two-IsSorted = ((omega arith, tt), (tt, tt))

abbrev uid : ℕ
uid = 9

abbrev now : ℕ
now = 101

channels_lem_example :
    (find_channel uid (add_channel (channel 9) manager)
      ≡ (if 9 == uid then some (channel 9) else find_channel uid manager))
    × ((remove_channel (channel 9) manager).1 ≡ channel 9 ∷ [])
    × (find_channel uid (remove_channel (channel 9) manager).0
        ≡ (if 9 == uid then none else find_channel uid manager))
    × (lookup uid (on_idle late_channel now two_channels).1.entries ≡ (
        if ltb (since now 90) 1
        then lookup uid two_channels.entries
        else unless_late late_channel (lookup uid two_channels.entries)))
channels_lem_example =
    channels_lem late_channel (channel 9) uid now manager two_channels (omega arith) two-IsSorted

abbrev memory : Malloc
memory = record { alloc = λ n. replicate n 9; length-alloc = λ n. length-replicate {A = ℕ} n 9 }

abbrev config : ClientConfig
config = record {
  host = [];
  port = 80;
  timeout = 3;
  client_type = 0;
  auto_reconnect = true;
  need_heartbeat = true;
  heartbeat_interval = 30;
}

abbrev client : NetClient ℕ
client = record { uid = 196613; config = config; requests = []; last_heartbeat_time = 0 }

-- The head of a response to the request that the client made at time 100.
abbrev reply : MagicMessage
reply = record {
  length = 20;
  version = 1;
  flag = 0;
  is_request = 0;
  request_id = make_request_id 196613 100;
  server_number = 0;
  payload = none;
}

abbrev head : List ℕ
head =
    to_bytes 4 20
    ++ to_bytes 1 0
    ++ to_bytes 2 1
    ++ to_bytes 1 0
    ++ to_bytes 8 (196613 * 4294967296 + 100)
    ++ to_bytes 4 0

abbrev packet : ℕ → SkBuffer
packet n = record {
  capacity = 32;
  readable_at = n;
  writeable_at = 20;
  min_capacity = 32;
  bytes = head ++ replicate 12 0;
}

reply_decoded : decode memory blank (packet 0) ≡ done reply (packet 20)
unfolding decode make_request_id echo_frame.Buffer.IoBuf.read_number
    echo_frame.Buffer.IoBuf.read_bytes echo_frame.Buffer.SkBuffer.get_readable_and_move
    echo_frame.Buffer.Memory.load to_bytes echo_frame.Base.Bytes.of_bytes
reply_decoded = refl

handle_packet-once_example :
    (after : Clients ℕ) × (handle_packet memory
        (packet 0)
        (put_client 196613 (start_session 100 7 client) (new_loop 0 ∷ []))
      ≡ done (job_for reply (new_session 196613 100 7), after) (packet 20))
    × (handle_packet memory (packet 0) after ≡ done (none, after) (packet 20))
handle_packet-once_example =
    handle_packet-once memory 100 7 client (new_loop 0 ∷ []) reply reply (packet 0) (packet 20)
      (packet 0) (packet 20) (omega arith) (omega arith) (omega arith) refl refl reply_decoded
      reply_decoded
