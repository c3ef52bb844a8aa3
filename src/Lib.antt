-- ===== src/Lib.antt =====
-- Drivers for i.MX boards on Genode (src/drivers, src/app): Linux drivers that were ported, and
-- components written in C++ (Gpio, DriverManager, PciHost, Ipu and Platform below); and what the
-- kernel's boot loader sets up on the boards (Bootstrap).
--
-- Each ported driver runs unmodified Linux code between two thin layers written for this repository:
-- below, an emulation of the kernel services the driver calls (lx_emul.c, dummies.c), and above,
-- a task that serves a Genode session (lx_user.c). These layers are what is modelled; the Linux
-- code between them, and the Genode libraries they call, are parameters with named hypotheses.
--
-- Base: results that may crash or block (Run), lists over the native numbers (Lists), Boolean
--   tests (Tests), the block operations on buffers (Memory) and loops that read a status bit (Poll).
-- SdCard (src/drivers/sd_card/lx_user.c): Claim models bd_may_claim, bd_prepare_to_claim and
--   the empty bd_abort_claiming of dummies.c; Bdevs the table of block devices; Disks the table
--   of gendisks and the sessions announced for them; Requests the service of block requests,
--   from the session's request to the bio and back to its acknowledgement.
-- Nic (src/drivers/nic/fec/lx_user.c): Uplink models the task of a network device: it follows
--   the link state, creates and destroys the uplink, and moves packets in both directions.
-- Gpu (src/drivers/gpu/imx8mq/lx_emul.c and lx_user.c): Session opens and closes the DRM file,
--   Ioctl translates the arguments of a call between the client's and the driver's memory,
--   Calls are the entry points of the Genode side, Mapping looks a buffer up by its offset,
--   Tasks starts and ends the tasks. Server (main.cc beside them) is the Genode session: State its
--   fields and the id space of buffers, Task the function that carries out a request, Rpc the
--   calls of the client and the destructor, Start the creation of the task and the constructor.
--   Calls lists the calls as steps of a session; Frame, Handles, Ids, Submit, Life and Remap are
--   about what they do.
-- Display (src/drivers/framebuffer/imx8mq): I2c models i2c_imx.c, Fb models fb.c and
--   reset_core.c, Dummies the functions of dummies.c that allocate and free, Screens the screens of
--   main.cc and the control word of src/drivers/pwm/imx8mq/main.cc.
-- SdCard.LxEmul (src/drivers/sd_card/lx_emul.c).
-- Emul: Chrdev, Pages, PseudoFs and Slab model parts of src/drivers/nic/fec/lx_emul.c, DmaPool the
--   pool of src/drivers/usb_host/imx/lx_emul.c, UsbImx8mq that of src/drivers/usb_host/imx8mq, Soc
--   the search and the counter of src/drivers/framebuffer/imx8mq/dummies.c, Forward the small
--   functions of all these files, and Wifi those of src/lib/imx8mq_wifi/dummies.c that compute
--   something.
-- Gpio (src/drivers/gpio/imx/driver.h): Bank one bank with its registers, Driver the calls and the
--   interrupt handler, Probe the construction of the banks; Calls has the calls as steps, Delivery,
--   Masks, Pins and Banks are about signals, masks, single pins and the construction.
-- DriverManager (src/app/driver_manager/imx8mq/main.cc): Xml the configurations as trees and the
--   reports that are read, Drivers the start nodes and policies of the drivers, Manager the state,
--   the generated configurations and the handlers; Current, Routes and Usb are about sequences of
--   updates, the announced block devices and the exposed USB devices.
-- PciHost (src/drivers/pci_host/imx8mq/main.cc): Registers the writes and the waits, Controller and
--   Scanner the constructors of these names and Main's loop; Waits, Windows and Buses are about the
--   waits, the outbound windows and the bus numbers.
-- Ipu (src/drivers/framebuffer/imx53/ipu.h): Descriptor the descriptor of a DMA channel as it is
--   packed, Registers the accesses, Displays those of either display, Init those of init, Overlay those
--   of overlay; Order and Memory are about the order of the accesses and about what the channels of
--   the display read afterwards.
-- Bootstrap (src/bootstrap/board): Tables the pad settings of three boards, Setup how they are
--   written and how the frequency of the CPU is raised; Pads and Frequency are about these two.
-- Platform (src/drivers/platform): Ccm how a Sccg_pll, a root clock and its divider of the imx8mq set
--   and read their rate; Closest, Pll and Divider are about these three. FracPll (with Rate) is the
--   other PLL of that board, Roots how its root clocks and gates are switched, Tree the clocks as ccm.h
--   declares them, on the imx8mp too, and how a rate is found among them, and Resets (with Lines) its
--   resets (src.h). Imx53 (with Gates) are the clocks and the reset of the imx53.
--   Imx8mp are the PLLs of the imx8mp: Pll14xx and Compute the definitions, Search and Fraction
--   about the search for a configuration, Table about the table of rates, Safety about the order
--   of the accesses.
-- Legacy: NicTask (src/drivers/nic/fec_legacy/lx_user.c), Emul (lx_emul.c beside it), Block
--   (src/drivers/sd_card_legacy/imx8mq/block.c) and SdEmul (lx_emul.c beside that). A function
--   whose text is that of the current driver is the current definition; Block has bios that name
--   a disk.
--
-- A C function of name f is the definition f, with the state it changes as an argument and in
-- its result. A pointer is a number and 0 the null pointer; a dereference of it is a crash, a
-- value of the result type. Calls of Genode and of Linux are entries of a trace or parameters.
-- Loops over a table of fixed size are structural recursion over it. The loop that waits for a
-- claim and the loops that drain a queue of requests or packets run for a number of rounds: as many
-- as the other tasks need to end their claim, or more than there are queued elements, are shown to
-- be enough, as are more rounds than a GPU session has buffers for the loop of its destructor. The
-- searches for divisors and the waits of the PCIe driver and of the PLLs have the bounds of the
-- source. The loops that wait for the reset of the image processing unit and for the PLL in the boot
-- loader have none there: they take fuel, and return within any number of reads at the last of which
-- the hardware is ready.
--
-- Not modelled: lx_user_init and the registration of classes, which only create threads and
-- objects; stubs that print and stop; the root components and the calls of a session that only
-- print that they are not implemented; the power domains and the pads of the platform drivers,
-- which are constants and single register writes, and the code of the imx8mp that repeats that of the
-- imx8mq; the start-up of the other CPUs and the kernel's board constants, the build recipes and the
-- run scripts.
pub mod Base
pub mod SdCard
pub mod Nic
pub mod Gpu
pub mod Display
pub mod Emul
pub mod Gpio
pub mod DriverManager
pub mod PciHost
pub mod Ipu
pub mod Bootstrap
pub mod Platform
pub mod Legacy
