-- ===== src/Lib.antt =====
-- A model of imxrt-usbd, the USB device driver of the i.MX RT microcontrollers.
--
-- The driver runs one USB peripheral as a device for the crate usb-device. A `BusAdapter` keeps a
-- `Driver` in a RefCell behind a critical section and passes each call of the bus on to it. The driver
-- owns two allocators: of the endpoint memory, which hands out the buffers of endpoints, and of the
-- endpoint state, a list of queue heads, one of transfer descriptors and one of endpoints, with a
-- mask of the slots in use. An endpoint owns one queue head, one descriptor and one buffer, so it has
-- one packet in flight at most: it schedules a transfer by filling its descriptor, linking it in the
-- queue head and priming itself in a register, and polling tells when the transfer is complete.
--
-- Files and sources, the paths from the root of the repository:
--   Buffer, Cache, Td, Qh: src/buffer.rs, src/cache.rs, src/td.rs, src/qh.rs
--   Endpoint: src/endpoint.rs, and `endpoint_control::register` of src/ral.rs
--   State: src/state.rs (`slot` is its function `index`)
--   Gpt: src/gpt.rs
--   Driver: src/driver.rs; Driver.Endpoints has what is done to all endpoints, Driver.Transfers the
--     reads, writes and stalls of one, Driver.Calls the calls as data and what they lead to
--   Bus: src/bus.rs; Bus.System has the calls of the adapter as data, what their callers must see to,
--     and the steps of the adapter and the controller beside it
--   Ral, Machine, Platform: what the sources are built on; Common: shared notation and lemmas, of
--     which Common.Total has the rules for code that returns and keeps an invariant
--   Manual: a concrete platform, on which the modules named Tests run the theorems
-- A definition has the name of the function or type that it models, in the module of its file. A
-- module below a component's proves what its comment names. That code returns is proved from the
-- inside out: Platform.Prompt for the registers, Endpoint.Returns for an endpoint, Driver.Sound with the
-- invariant of a driver, Driver.Served and Driver.Returns for a driver, Bus.Returns and Bus.Reaches for
-- the adapter. Bus.Abstract is the view of a caller, Driver.Delivery what goes over the wire.
-- Driver.Registers has the loops over endpoints whose two directions share a control register.
--
-- State and effects. The state of a driver, an endpoint or an allocator is a record of its fields. What
-- lies outside is a `World`: the log of all accesses, the last first, and the memory of the buffers.
-- A register read gives what the platform's `answer` says after that log, so that a controller may
-- answer in any way that depends on the past; a write is only logged. The log also has the cleans of
-- cache lines, each with the memory that the processor saw then, so that it tells what each wrote
-- back (`written_back`), and the stores to a descriptor or a queue head, with its words afterwards:
-- those of `schedule_transfer` and `enable_zlt`, not those of allocation, and the stores between two
-- other accesses to one descriptor as one. A call is a function of the
-- state with an `Outcome`: `done`, `panic`, `hang` where a loop runs out of fuel, and `fault` for a
-- read of memory that was never initialised. A pointer is its address, and a reference to an endpoint
-- is a session that is put back in its slot when it ends. Arithmetic on usize and u32 wraps at 2 ^ 32
-- or panics, as the parameter `checks` says; conversions to u16 and u32 are remainders.
--
-- Loops. Waiting for a register, waiting for the reset and the setup tripwire run on fuel, each fuel
-- counting reads or attempts; the theorems about them assume that the controller settles within it
-- (`Settles`, or an attempt that finds the tripwire armed) and prove that the call then returns.
-- `IsPrompt` gathers these assumptions for all the loops of a driver: within `fuel` reads of a
-- register the prime, the flush and the reset are over, and within `fuel` attempts a tripwire holds.
-- The other loops are over lists or counts.
--
-- Parameters, since the repository does not hold them: the macros and the register layout of
-- imxrt-ral, the flag types of bitflags, addresses and endpoint types of usb-device, and
-- `interrupt::free` of cortex-m, each with what its documentation says as a law; the address of the
-- local variable `self` in the two methods that take it.
--
-- Not modelled: the contents of the cache beyond what the cleans write back, so neither evictions nor
-- whether the controller finds the words stored to a descriptor (the methods that clean it take the
-- address of their local variable `self`), nor whether a read of a buffer sees what the controller stored;
-- logging (the model is of a build without the feature defmt), volatility of a cell
-- beyond its value, the effect of interrupts on a call, `Sync` and the type-level instance numbers.
-- The controller works on descriptors and buffers between calls, as a step of Bus.System that may do
-- anything within `IsTransferred`: it writes the endpoint's buffer only and leaves no more bytes to
-- transfer than there were. Driver.Delivery says what the controller does with one packet
-- (`IsReceived`, `fetched`). That it works while a call runs is not modelled, apart from the registers,
-- which may answer anything at any time.
pub mod Common
pub mod Ral
pub mod Machine
pub mod Cache
pub mod Buffer
pub mod Td
pub mod Qh
pub mod Platform
pub mod Endpoint
pub mod State
pub mod Gpt
pub mod Driver
pub mod Bus
pub mod Manual
