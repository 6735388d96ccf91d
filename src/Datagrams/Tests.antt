-- ===== src/Datagrams/Tests.antt =====
-- Two sockets with datagram queues and a free row.
use shadow_lan.Base.{if◌then◌else◌, ◌≡◌, refl, true, false, [], ◌∷◌, arith, List, modify_all, ◌==◌}
use shadow_lan.Net.{Addr}
use shadow_lan.Datagrams.{
  pop_row, lookup, Queue, Dgram, Sockets, got, push, pop, close, dispatch_rows,
}
use shadow_lan.Datagrams.Valid.{IsTable, IsRow, push-IsTable}
use shadow_lan.Datagrams.Fifo.{
  waiting, bounded_push, bounded_pop, push-waiting, push-waiting_other, pop-waiting, close-waiting,
}
use shadow_lan.Datagrams.Fanout.{takes, with_last, dispatch_rows_lem}

abbrev peer : Addr
peer = record { ip = 0x0a50_0009; port = 6112 }

abbrev hello : Dgram
hello = record { p = 1 ∷ 2 ∷ 3 ∷ []; from = peer }

abbrev free_row : Queue
free_row = record {
  used = false;
  gsock = 0;
  q = [];
  nq = 0;
  closed = false;
  vport = 0;
  signals = 0;
}

abbrev five : Queue
five = record free_row { used = true; gsock = 5; q = hello ∷ []; nq = 1; vport = 6112 }

abbrev six : Queue
six = record free_row { used = true; gsock = 6 }

abbrev table : List Queue
table = five ∷ six ∷ free_row ∷ []

table-IsTable : IsTable table
unfolding IsRow
table-IsTable = record {
  rows = ((λ e. ground (arith)), ((λ e. ground (arith)), ((λ e. ground (arith)), tt)));
  one_each = λ s. ground (arith);
}

push-waiting_example :
    waiting (push true hello 6 table) 6 ≡ bounded_push true hello (waiting table 6)
push-waiting_example = push-waiting table 6 table-IsTable true hello refl

push-waiting_other_test : waiting (push true hello 6 table) 5 ≡ waiting table 5
push-waiting_other_test =
    push-waiting_other table 6 table-IsTable true hello 5 (λ e. absurd (omega (arith, e)))

push_IsTable_test : IsTable (push true hello 7 table)
push_IsTable_test = push-IsTable 7 table table-IsTable true hello

pop-waiting_example :
    (waiting (pop 2 5 table).0 5, (pop 2 5 table).1) ≡ bounded_pop 2 (waiting table 5)
pop-waiting_example = pop-waiting table 5 table-IsTable 2

close-waiting_test : waiting (close 5 table) 5 ≡ []
close-waiting_test = close-waiting table 5 (omega arith)

-- Socket 5 shows port 6112, socket 6 is bound to it.
abbrev sockets : Sockets
sockets = record {
  bound_port = λ s. if s == 6 then 6112 else 40000;
  is_dgram = λ s. true;
  memory = λ s. true;
}

dispatch_rows_lem_example :
    dispatch_rows sockets 6112 hello table table
    ≡ modify_all (takes sockets 6112 hello) (with_last sockets 6112 hello) table
dispatch_rows_lem_example = dispatch_rows_lem sockets 6112 hello table table-IsTable

popped : (pop 2 5 table).1 ≡ got (1 ∷ 2 ∷ []) peer
unfolding pop pop_row lookup
popped = refl
