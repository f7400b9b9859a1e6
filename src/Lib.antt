-- ===== src/Lib.antt =====
-- The staff of a hotel, simulated: a manager takes cleaning requests from a message broker and hands
-- them to housekeepers; housekeepers use up stock, send laundry to launderers and set the status of
-- the cottage; launderers use up soap and wash until enough hours of the simulated clock have gone;
-- stockers fill up the stock; and a service passes the hour and day changes of the clock on to those
-- who wait for them. This library models the services, the rules they check their input with, the two
-- repositories behind them, the clients of the broker, the database and the clock, and the start and
-- the shutdown of the program.
--
-- Which file models what (paths of the repository under internal/):
--   Base             texts, integers of 64 bits, maps as association lists.
--   Domain           domain/request.go, domain/documents, domain/errors, domain/set_datatype.go.
--   Validation       app/validation: a chain of checks, run up to the first that fails.
--   Port             port/clock.go, port/repository.go. StockContract and CottageContract say what the
--                    services rely on of the repositories.
--   Mdb              infra/mdb/stock_repo.go and cottage_repo.go over a collection of MongoDB, which is
--                    a parameter. StockView and CottageView state what the manual says of the calls
--                    made: `find_one` finds a document that is there or fails, `update_one` changes
--                    one document that the filter matches, counts what it matched and changed, or
--                    fails before or after the change.
--   Mdb/Client       infra/mdb/mongo_db.go over the driver's client.
--   Config           config: what is read from the environment.
--   Mq               infra/mq: Connection, Channel, Consumer and Producer are its files of these names,
--                    and Port is port/mq.go.
--                    Amqp is the library behind them, which is a parameter. The connection, which all
--                    channels share, is a part of the state (`Wire`); a consumer or a producer is a
--                    value that its methods take and answer.
--   Infra            infra/init.go; Clock is infra/clock/clock_client.go, Telemetry is
--                    infra/telemetry/telemetry.go and metrics.go, Tracing is tracing.go there, and
--                    Logging is infra/logging/log.go.
--   Transport        transport/http_server.go and transport/http/probe/probe.go.
--   Main             main.go. Outside has the libraries, and what the program does while it serves.
--   App/World        what the services act on: the outside of the ports, what was sent into the
--                    channels of app/init.go, how deliveries were settled, and the log.
--   App/Employee     app/employee_service.go and employee_metrics_service.go. Run has the goroutines of
--                    `Work` as a step relation, in which any employee may move next.
--   App/Stocker, App/Housekeeper, App/Launderer
--                    the services of these names: their `work`, as a function of the request.
--   App/TimeEvents   app/time_event_notification_service.go.
--   App/Manager      app/manager_service.go.
--   App/Delivery, App/Unmarshal, App/Registry
--                    what the loops of these two share, and app/utils.go.
--   App/Services     the constructors, `NewServices` and `Services.Start` of app/init.go.
--   App/System       the three channels of app/init.go (room for 32, 32 and 16 requests) and all the
--                    goroutines that use them, as a step relation in which any of them may move next.
--                    Groups, Laundry, Settled, Ended, Stuck and Blocked are proofs on it.
--   App/Flow         how a cleaning request goes through the manager, a housekeeper and the launderers.
--   Sample           a database and a network in memory that keep the contracts, and a staff, for the
--                    tests.
--
-- How code becomes a definition. A method that holds a mutex from start to end is a function of the
-- state. A `work` is an `Action`: it changes the state of the ports and the log in the order of the
-- statements, and an error is a value. Each call of a repository in it is one step, and between two
-- of them the other employees may change the stock and the cottages in any way: `meanwhile`, a
-- function on the outside that is a parameter of each employee, stands for what they do; what they
-- write and send is not in the `World` of the one. A loop around `select` is a function of the list
-- of events that it receives, by recursion on that list, so that no fuel is needed; a step of
-- another goroutine in between is an event of its own, and a call whose events have run out is
-- still waiting. A send into a channel that is full waits in the code: the models of a single
-- service show the state after it went through, App/System has the waiting, and the sends that do
-- not wait, of the time events, look at the room there is. An `int` has 64 bits; the counters of
-- the employees wrap around there, and the stock's numbers are MongoDB's. The loop around `Dial` is
-- by recursion on the attempts that are left, five at the start.
--
-- Parameters, since their code is elsewhere: MongoDB and its driver, the library of AMQP and the
-- broker's answers to `Ack` and `Nack`, protocol buffers (decoding, encoding, and the text of a
-- number that an enumeration does not name), gRPC, OpenTelemetry, the server of package http, the
-- package that reads the environment, the draws of package rand, and the order in which `select`
-- receives.
--
-- Not modelled: the spans inside the services and repositories, the headers that carry a trace, log
-- lines that only help debugging, and the limits of time of contexts. What runs between the start
-- of the services and the signal to end is a parameter of Main, which is taken to return; its start
-- is in App/Services/Start, and App/System has its channels. The log of App/World is what the
-- services write; its handler is in Infra/Logging. The helpers under integration_test and the fakes
-- are for tests; how `fmt` prints a number is a parameter.
pub mod App
pub mod Base
pub mod Config
pub mod Domain
pub mod Infra
pub mod Main
pub mod Mdb
pub mod Mq
pub mod Port
pub mod Sample
pub mod Transport
pub mod Validation
