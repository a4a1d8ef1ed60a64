-- ===== src/Lib.antt =====
-- NSDScourse: the C programs of a course on networked software for distributed systems, in three
-- families. The MPI programs under MPI/ run the same `main` on every rank; the Contiki-NG programs
-- under Contiki-NG/lab and Contiki-NG/NSDS-contiking-eval-23 are protothreads on a sensor node, and
-- so are most of those under Contiki-NG/examples, which come with Contiki-NG or with the lectures.
--
-- Base: lists, options, Booleans and sums that all parts share.
--
-- Mpi: the MPI programs. A program is modelled for all ranks together: what each rank has is a list
--   by rank, and what a collective call does to it is an operation of `Mpi.Collective`, a record of
--   `gather`, `bcast`, `scatter` and `reduce_sum` with the laws of the MPI standard, which is a
--   parameter of the programs that call them; `Mpi.Collective.Local` fills it with functions on lists. `rand()` is
--   an argument. Memory management, timing and printing are left out.
--   Mpi.Guess (MPI/NSDS_MPI_lab/guess.c): select_number, send_num_to_leader, compute_winner,
--     send_winner, update_leader, update_leaderboard and the loop of main under their own names,
--     with a state for all ranks in `Game`; -1 for no winner is `none`.
--   Mpi.LinearRoad (MPI/NSDS_MPI_lab/linear_road.c): the loops over the segments of a rank are
--     `drain` and `sweep`, an iteration over all ranks is `iterate`, the reduction `global_sum`. The
--     loop over the cars of a segment runs on fuel, as many rounds as there are cars.
--   Mpi.Filter (MPI/NSDS_MPI_tutorial/src/filter.c): get_num_multiples, get_multiples,
--     send_filtered_results_to_master and master_receive_results; the order in which the master finds
--     the messages is any rearrangement, the relation `Arrives`.
--   Mpi.Average (MPI/NSDS_MPI_tutorial/src/average.c): create_random_array, compute_average,
--     compute_final_average and main over a parameter in place of `float`.
--   Mpi.Ants (MPI/NSDS_MPI_eval/ants_simulation_25.c): random_position, init_food_sources, init_ants,
--     get_f1 and get_f2; the loop of main is `iterations`, for all ranks together.
--   Mpi.CharCount (MPI/NSDS_MPI_tutorial/src/char_count.c): the loop over a file is `count_file`, the
--     loop over the letters `exchange`, on the messages in the order in which they arrive.
--   Mpi.Network and Mpi.Process: point-to-point calls. The messages on their way are a parameter,
--     which `Mpi.Network.Local` fills; a program is a function from a rank and its variables to its
--     next call, and a run a sequence of choices of who goes on.
--   Mpi.PingPong, Mpi.Ring, Mpi.Probe (ping_pong.c, ring.c and probe.c under
--     MPI/NSDS_MPI_tutorial/src): the loop of main or main itself as such a program.
--   Mpi.Deadlock (deadlock.c, deadlock_avoid_isend.c, deadlock_avoid_sendrecv.c and recv.c there): the
--     four sequences of calls.
--   Mpi.MonteCarlo (MPI/NSDS_MPI_lab/monte_carlo.c): the loop of main and the reduction; distances are
--     compared exactly.
--
-- Contiki: the Contiki-NG programs. A protothread is modelled between two waits, as a function of its
--   static variables and of what happens; events, timers, the network, the MQTT engine and clocks
--   belong to Contiki-NG and are arguments or a list of events, and what a program asks of them is
--   kept in its state. Unsigned variables wrap at their width.
--   Contiki.Queue (Contiki-NG/lab/es1/es1.c): `producer` and `consumer` over the queue of ten and
--     the events that they post to each other.
--   Contiki.Timers (Contiki-NG/lab/es2/timers.c): `ctimer_callback` and `rtimer_callback`.
--   Contiki.Echo (Contiki-NG/lab/es3/udp-client.c and udp-server.c): the loop of the client is
--     `client_wakes`, udp_rx_callback is `client_receives`. Posted events wait, as a number, until the
--     process handles them; process_post may fail.
--   Contiki.Mqtt (Contiki-NG/lab/es4/mqtt-demo.c and project-conf.h): `Address` is ipaddr_sprintf,
--     `Config` is init_config and update_config with the texts they construct, `Message` is publish,
--     `Handler` is pub_handler, `Machine` is mqtt_event, connect_to_broker, state_machine and the
--     process. Numbers are printed with ten digits at most, which an `int` has. The LEDs are left
--     out.
--   Contiki.Ring and Contiki.Sensor (Contiki-NG/NSDS-contiking-eval-23/udp-client.c and udp-server.c):
--     the array of the last ten readings that both files have, the client and the server.
--
-- Examples: programs of Contiki-NG/examples with a logic of their own.
--   Examples.SixTop (Contiki-NG/examples/6tisch/sixtop/sf-simple.c and sf-simple.h): `Library` has as
--     records what is called of the TSCH schedule, of the packets and of 6top; `Cells` is
--     add_links_to_schedule and remove_links_to_schedule, `Answers` is input with all functions behind
--     it, and the callbacks of the responses; `Requests` is sf_simple_add_links, on the results
--     of random_rand as a list, and sf_simple_remove_links.
--   Examples.Trickle (Contiki-NG/examples/libs/trickle-library/trickle-library.c): tcpip_handler,
--     trickle_tx and the process, on a list of what happens.
--   Examples.Events (Contiki-NG/examples/protothreads-events/protothreads-events.c): the loops are
--     `ping_turn` and `pong_turn`.
--   Examples.SoftState and Examples.HardState (the four programs of
--     Contiki-NG/examples/soft-hard-state): client and server together, with lost messages.
--   Examples.SerialProtocol (Contiki-NG/examples/lwm2m-ipso-objects/serial-protocol.c): the pointers into
--     a line are positions in its memory.
--   Examples.LargeUpdate (Contiki-NG/examples/coap/coap-plugtest-server/resources/
--     res-plugtest-large-update.c): the two handlers, on the fields of a request that they read.
--     A client that gets all blocks runs on fuel, as many requests as the store has bytes.
--   Examples.Texts: the text at an address, for both programs that read some.
--   Examples.WebDemo (httpd-simple.c, cc26xx-web-demo.c and mqtt-client.c under
--     Contiki-NG/examples/platform-specific/cc26xx/cc26xx-web-demo): `Escape` is url_unescape, `Form` is
--     parse_post_request_chunk, whose static variables are a record with the state of the handlers;
--     `Server` is handle_input, as one function from each read of a protosocket to the next, the lock,
--     and in `Server.Events` handle_output up to the choice of the answer and appcall; `Output` is
--     enqueue_chunk with send_headers and generate_top_matter; `Sensors` is save_config, load_config
--     and the handlers of the forms, whose state is the one that the parser carries; `Readings` is the
--     functions that start and read the sensors; `Mqtt` is the handlers of mqtt-client.c. The flash memory, the values of the drivers,
--     atoi and the configurations of the other processes are parameters. A length is an `int` without
--     bounds. The bodies of the pages are left out.
--
-- Not modelled: MPI/NSDS_MPI_tutorial/src/hello_world.c, which only prints; the other programs under
-- Contiki-NG/examples, most of which show or test a driver or a protocol; and the programs in other
-- languages under Akka, Kafka, spark and NodeRed.
pub mod Base
pub mod Mpi
pub mod Contiki
pub mod Examples
