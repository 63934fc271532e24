-- ===== src/Lib.antt =====
-- cleveremote-box: a controller that runs irrigation cycles on actuators behind Modbus devices and
-- GPIO pins. This library models its core services, which stand in src/modules/process/domain.
--
-- The parts and how they interact:
--   * Domain (Domain/Types, Domain/Cycle): the models and enumerations of domain/models and
--     domain/interfaces, and the methods of CycleModel.
--   * Engine: ProcessService of services/execution.service.ts. It keeps the list of processes, the
--     queued sequences and the tokens of the groups (Engine/State), and shares the cycles of the
--     structure with every other service. `reset` and `execute` call one another: Engine/Calls has
--     `reset`, Engine/Force the FORCE branch of `_manageProcessType` with the cascades of rules 1 and
--     3, Engine/Modes the decision of `_manageProcessMode`, and Engine/Execute ties the knot. Engine/Runs
--     has the events of a running cycle (`_executeWithActuators`, `_createExecObs`, rule 2),
--     Engine/GroupStarts the start of the children of a group, Engine/Entry the other public methods,
--     Engine/Progress the status events, Engine/Awaits the same where the database may reject, as a stop
--     awaits them, and Engine/Conflicts the searches for shared actuators. Engine/Steps lists all events.
--     The theorems on stops are in Engine/Quiet, Engine/Stopping, Engine/Settling, Engine/GroupStops and
--     Engine/Ending, those on decisions in Engine/Precedence and Engine/Conflicting, those on starts in Engine/Starting and
--     Engine/Superseded.
--   * Modbus: services/modbus.service.ts. Modbus/Queue is the queue of the bus, Modbus/Requests
--     `_runComRequest`, Modbus/Monitors the polls of digital inputs and outputs, Modbus/Registers and
--     Modbus/Params the decoding of registers and the addresses of parameters. The engine asks for
--     requests; a change of an output comes back to it as an event. Modbus/Inverter is
--     `_applyInverterConfig`, Modbus/Readings the part of `_evaluateReading` that decides whether a reading has
--     a value.
--   * Devices: discovery of a new module in services/device.service.ts, over the bus.
--   * Schedules: services/schedule.service.ts, whose ticks ask the engine for a process.
--   * Groups: services/cycle-group.service.ts over the documents of
--     infrastructure/repositories/cycle-mongoose.repository.ts, which hold the children of a group.
--   * Conditions: utils/evaluate-conditions.util.ts, over mathjs.
--   * Triggers: services/trigger.service.ts. Its objects stand in a store of references (Triggers/Defs), since
--     the list, the queue and the calls share them; Triggers/Service has the operations, cut at each await, and
--     Triggers/Steps the runs. A value that changes begins checks, a verified check plans a schedule.
--   * Actuators: the regulation of the proportional valve of services/actuator-strategies/
--     ctrl-actuator.strategy.ts, in tenths of a percent, utils/build-override-params.util.ts, and the GPIO and COM
--     strategies (Actuators/Switches).
--   * Strategies: the initializations of services/device-strategies, which write by Modbus/Requests.
--   * Sensors: services/sensor.service.ts, whose values the conditions read through
--     infrastructure/repositories/value.repository.ts; Sensors/Com reads a sensor by Modbus.
--   * Structure: services/configuration.service.ts, the structure in memory as it is loaded from the database
--     and the last events, and the statuses that it reports.
--   * Repositories: the documents of the database, with the soft deletion and the replacements of
--     infrastructure/repositories. Groups/Sync is `save` of cycle.repository.ts, over the documents of Groups.
--   * Startup: services/init.service.ts, authentication.service.ts, global-settings.service.ts, sun-event.util.ts
--     and the driver pattern of services/schedule.service.ts.
--   * Synchronize: the device tree of services/synchronize.service.ts, over Repositories.
--   * Mapping: the payloads of infrastructure/dto/synchronize.dto.ts, their mappings to the models that are
--     synchronized, and the mappers of infrastructure/schemas/mappers between models and documents. A property that
--     may be absent is a Field (Mapping/Json): undefined, null or given, and so is an entry of a list of objects in
--     the payload of a cycle; a property of an absent object is a TypeError. Mapping/Kept and Mapping/Saved have
--     the round trips, Mapping/Refused the payloads that throw.
--   * Bluetooth: services/ble.service.ts, the networks that are read and the settings that are written.
--   * Base: shared helpers on Booleans, lists and integers.
--
-- How state and effects are modelled: a service is a record, a handler a function from a state to a
-- state or an outcome (done, thrown, out of fuel). In the engine, the calls of the database that `reset`
-- awaits succeed or reject (`resolves`, `saves` and `fetches` of Env); the other handlers of the engine take
-- the database to work. Calls of other services are entries of a log.
-- Identifiers, names and texts are numbers. The database, the bus, cron and the conditions of a cycle
-- are parameters (Env, Bus, Client, Cron, MathJs, Sun, Formulas, Board, SunTimes).
--
-- Fuel: `call_within` bounds the depth of the calls between `reset` and `execute`. A stop marks its
-- cycle before it calls anything, so a stop inside it is of another cycle that runs, through a group at
-- most: two levels for every cycle of the structure are enough. A stop of a group follows its children,
-- so it ends only where no group is below itself.
--
-- Not modelled: `startedAt` of a progression; interleavings at the awaits inside one handler, but for the
-- triggers (each handler runs to its end, waits are steps of their own); the time that waits take; a reload
-- of the structure while cycles run; floating-point readings and formulas (mathjs); the database itself, transports, the
-- checks of class-validator, the casts and defaults of mongoose, the set-up of the Bluetooth host, and controllers.
pub mod Actuators
mod Base
pub mod Bluetooth
pub mod Conditions
pub mod Devices
pub mod Domain
pub mod Engine
pub mod Groups
pub mod Mapping
pub mod Modbus
pub mod Repositories
pub mod Schedules
pub mod Sensors
pub mod Startup
pub mod Strategies
pub mod Structure
pub mod Synchronize
pub mod Triggers
