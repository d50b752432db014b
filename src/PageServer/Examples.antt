-- ===== src/PageServer/Examples.antt =====
-- The page server at small inputs.
use so_distribuidos.Prelude.{
  update, print_nat, split_at, c_str, scan_int, slice, overwrite, atoi, Bytes, ℕ, ◌≤◌, true, none,
  some, [], ◌∷◌, ◌++◌, ◌≡◌, ◌≢◌, refl, arith, codes, pos, replicate, print_int,
}
use so_distribuidos.PageServer.Message.{format, send_command, recv_command_page_num_content}
use so_distribuidos.PageServer.Message.RoundTrip.{request_round_trip}
use so_distribuidos.PageServer.Server.{
  Server, Pc, waiting, writing, finished, init, read_lock_page, poll_page, write_page, page_content,
  free_page, finish_write, handle_client, add_to_queue,
}
use so_distribuidos.PageServer.Memory.Guard.{thread_step-page_content}
use so_distribuidos.PageServer.Client.{updated, handle_write_operation}
use so_distribuidos.PageServer.ClientSession.{
  arrivals, lock_message, write_message, asked, answered, write_session,
}
use so_distribuidos.PageServer.HandOver.{
  contents, all_well, long_page_refused, next_writer, last_writer,
}
use so_distribuidos.PageServer.Threads.{
  System, start, after, thread_step, accept, run, Reach, here, next, NodesAllocated,
}
use so_distribuidos.PageServer.Threads.Contract.{Effect, thread_step-Effect}
use so_distribuidos.PageServer.Threads.Exclusion.{
  IsSafe, start-IsSafe, Reach-IsSafe, mutual_exclusion,
}
use so_distribuidos.PageServer.Threads.Fairness.{position, no_overtaking}
use so_distribuidos.PageServer.Threads.Abandon.{none_yet, more, abandoned_page}

-- Two pages of eight bytes.
abbrev fresh : Server
fresh = init 8 2 (replicate 16 0)

abbrev begin : System
begin = start fresh

-- The system after a thread's step on a message.
abbrev step : System → ℕ → System
step sys i =
    after sys i (thread_step all_well true (some (codes "1 0")) sys.server i (sys.threads i))

abbrev join : System → ℕ → System
join sys i = step (record sys { threads = update sys.threads i Pc.connected }) i

-- Socket 5 has page 0, and socket 6 waits for it.
abbrev one : System
one = join begin 5

abbrev two : System
two = join one 6

join-Reach :
    {sys : System} (i : ℕ) → Reach begin sys → sys.threads i ≡ finished → Reach begin (join sys i)
join-Reach i r h = next (next r (accept i h)) (run i all_well true (some (codes "1 0")))

-- What has to be opened to run the server on a message.
machine : Unit {0}
unfolding thread_step handle_client finish_write poll_page write_page recv_command_page_num_content
    read_lock_page send_command print_int print_nat page_content add_to_queue split_at c_str
    scan_int slice overwrite atoi
machine = tt

one-Reach : Reach begin one
one-Reach = join-Reach 5 here refl

two-Reach : Reach begin two
unfolding machine
two-Reach = join-Reach 6 one-Reach refl

two-NodesAllocated : NodesAllocated two-Reach
unfolding machine two-Reach join-Reach one-Reach
two-NodesAllocated = ((((tt, tt), refl), tt), refl)

fresh-IsSafe : IsSafe begin
fresh-IsSafe = start-IsSafe 8 2 (replicate 16 0)

mutual_exclusion_example : ◌≡◌ {A = ℕ} 5 5
unfolding machine one-Reach join-Reach
mutual_exclusion_example =
    mutual_exclusion 8 2 (replicate 16 0) one-Reach ((tt, tt), refl) 5 5 0 refl refl

Reach-IsSafe_example : IsSafe two
Reach-IsSafe_example = Reach-IsSafe fresh-IsSafe two-Reach two-NodesAllocated

thread_step-Effect_example :
    let r = thread_step all_well true (some (codes "1 0")) one.server 6 Pc.connected in
    Effect 6 one.server.page_table Pc.connected r.server.page_table r.next
thread_step-Effect_example =
    thread_step-Effect all_well true (some (codes "1 0")) one.server 6 Pc.connected refl

-- Socket 5 writes while 6 waits.
abbrev written : System
written =
    after two 5 (thread_step all_well true (some (codes "2 0 hola")) two.server 5 (two.threads 5))

no_overtaking_example :
    position 6 (written.server.page_table 0).queue ≤ position 6 (two.server.page_table 0).queue
unfolding machine
no_overtaking_example =
    no_overtaking {sys = two} {sys' = written} 6 0 Reach-IsSafe_example
      (run 5 all_well true (some (codes "2 0 hola"))) refl refl refl

-- Socket 5 goes away instead.
abbrev gone : System
gone = after two 5 (thread_step all_well true none two.server 5 (two.threads 5))

abbrev polled : System
polled = after gone 6 (thread_step all_well true none gone.server 6 (gone.threads 6))

abandoned_page_example :
    ((j : ℕ) → polled.threads j ≢ writing 0)
    × (page_content polled.server 0 ≡ page_content two.server 0)
unfolding machine
abandoned_page_example =
    abandoned_page all_well true none two {sys' = polled} 5 0 Reach-IsSafe_example refl refl refl
      refl (more {t = gone} none_yet (run 6 all_well true none) refl refl)

thread_step-page_content_example :
    page_content
      (thread_step all_well true (some (codes "2 1 x")) two.server 6 (writing 0)).server
      0
    ≡ page_content two.server 0
unfolding machine
thread_step-page_content_example =
    thread_step-page_content all_well true (some (codes "2 1 x")) two.server 6 (writing 0) 0 refl
      (λ e. cc)

next_writer_example :
    let s' = (write_page all_well two.server 5 (pos 0) (some (codes "hola"))).server in
    (poll_page all_well s' 6 0
      ≡ record { server = s'; sent = format (pos 0) (codes "hola") ∷ []; next = writing 0 })
    × (s'.page_table 0 ≡ record { lock = 1; queue = 6 ∷ [] })
unfolding machine
next_writer_example =
    next_writer all_well two.server 5 6 0 (codes "hola") [] refl (omega arith) refl (omega arith)
      (omega arith) (omega arith)

last_writer_example :
    let s' = (write_page all_well one.server 5 (pos 0) (some (codes "hola"))).server in
    (s'.page_table 0 ≡ record { lock = 0; queue = [] })
    × (read_lock_page all_well s' 9 (pos 0) ≡ record {
      server = record s' {
        page_table = update s'.page_table 0 (record { lock = 1; queue = 9 ∷ [] });
      };
      sent = format (pos 0) (codes "hola") ∷ [];
      next = writing 0;
    })
unfolding machine
last_writer_example =
    last_writer all_well one.server 5 9 0 (codes "hola") refl (omega arith) refl (omega arith)
      (omega arith) (omega arith)

-- One page of 510 letters.
abbrev long : Server
long = init 510 1 (replicate 510 97)

long_page_refused_example :
    ((read_lock_page all_well long 5 (pos 0)).next ≢ writing 0)
    × ((poll_page all_well long 5 0).next ≢ writing 0)
unfolding page_content slice c_str
long_page_refused_example = long_page_refused all_well long 5 0 (omega arith)

request_round_trip_example :
    (m : Bytes) × (send_command (pos 2) (some (format (pos 0) (codes "hola mundo"))) true
      ≡ (true, m ∷ []))
    × (recv_command_page_num_content true (some m)
        ≡ record { command = pos 2; page_num = pos 0; content = some (codes "hola mundo") })
unfolding machine
request_round_trip_example =
    request_round_trip 2 (pos 0) (codes "hola mundo") (omega arith) (omega arith) (omega arith)

states :
    (one.threads 5 ≡ writing 0)
    × (two.threads 6 ≡ waiting 0)
    × ((two.server.page_table 0).queue ≡ 5 ∷ 6 ∷ [])
unfolding machine
states = (refl, refl, refl)

write_session_example :
    let r1 = asked fresh 5 0 in
    let r2 = answered fresh 5 0 (codes "hola") in
    (handle_write_operation true true
        (some (codes "hola\n"))
        (arrivals (r1.sent ++ r2.sent))
        (pos 0)
      ≡ (lock_message 0 ∷ write_message 0 (codes "hola") ∷ [], updated))
    × (r2.next ≡ finished)
    × (contents r2.server 0 ≡ codes "hola")
    × (r2.server.page_table 0 ≡ free_page)
unfolding machine
write_session_example =
    write_session fresh 5 0 (codes "hola") refl (omega arith) refl (omega arith) (omega arith)
      (omega arith) (omega arith) (omega arith)
