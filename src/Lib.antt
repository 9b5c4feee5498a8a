-- ===== src/Lib.antt =====
-- Albius, the installer backend of Vanilla OS
--
-- The program reads a recipe and installs a system: it partitions disks, encrypts, formats and
-- mounts them, copies the system, and writes the tables and settings that make it boot. It does
-- its work by shell commands, in a fixed order, and by files below the new root.
--
-- Each function that touches the machine is a value of `Go A`: it takes the world, which is a
-- state of the machine and the log of what was done, and returns an outcome (a value, an error,
-- a panic of Go, or a run that does not end) with the new world. What the machine answers is the
-- interface `Platform` of Machine: a shell, chroot, files, floating-point numbers and the
-- decoding of the JSON of parted are among its operations. Every theorem holds for each
-- Platform, and the witnesses use one that answers from a script. The log has an event for each
-- command with its environment and for each file written, so that a property can speak of all
-- that a function does, also when it fails.
--
-- The parts, the code of each and its module:
-- - Base: text as a list of bytes, the functions of strings, strconv and fmt that the code uses,
--   decimal numbers (Base/Decimal), splitting (Base/Splitting) and paths in a directory
--   (Base/Below).
-- - Machine: Platform, outcomes and errors (Machine/Results), and `Emits`, which says that all
--   events of a function satisfy a predicate (Machine/Emits), `Runs`, that it carries out a list
--   of processes and stops at the first failure (Machine/Runs), `Bounded`, how much it does at
--   most (Machine/Bounds), `Steady`, that it returns the same each time (Machine/Steady), what a
--   polling loop waits for (Machine/Polling), `Chain`, that functions return nil one after the
--   other (Machine/Sequence), and what the parts of a function returned that returned itself
--   (Machine/Returns), and `Alike`, that two functions return and do the same but for the
--   environments of commands (Machine/Secrets; the modules named Secrets elsewhere have the
--   lemmas of their parent's functions). `Logged` is what stands in the log between two worlds
--   (Machine/Logged), and Machine/Words says that a command names a path. Machine/Files: the
--   functions of the package os that return an error.
-- - Util: core/util/util.go, running commands and SeparateDiskPart. Util/Paths: how the latter
--   takes names apart. Util/Runs: the processes that are run.
-- - Luks: core/disk/luks/luks.go.
-- - Disk/Partition, Disk/Label: core/disk/partition.go. Disk/Filesystem:
--   core/disk/filesystem.go, with the processes of UpdateInitramfs in Disk/Filesystem/Initramfs.
--   Disk/Sectors, Disk/Table: core/disk/disk.go, with the free space of a disk in
--   Disk/Sectors/Holes and Disk/Sectors/Cover. Disk/Types: the records and filesystem names.
--   Disk/Table/Order, Disk/Table/New and Disk/Table/Waiting: the order of a table, what
--   NewPartition goes on with (its commands in Disk/Table/Formats), and the loop of
--   WaitUntilAvailable. Disk/Table/Labelled and Disk/Table/Prefixes: what LabelDisk does and
--   what it takes for a PV of the disk. Disk/Fields, with Disk/Fields/Sets: setField, on the
--   list of the fields of a struct, each with its name, type and value. Disk/Images: OCISetup of
--   core/disk/filesystem.go, with its loop in Disk/Images/Pulling and all that it does in
--   Disk/Images/Safety. Disk/Label/Waiting: the wait for a partition.
-- - Lvm/Bits, Lvm/Attrs: the constants and attribute parsers of core/lvm/pv.go, vg.go and lv.go.
--   Lvm/Types, Lvm/Reports, Lvm/Commands: core/lvm/lvm.go, the parsing of reports and the
--   commands. Lvm/Commands/Groups: the members of the groups that Vgs returns. Lvm/Methods: the
--   methods, which run one of them or test an attribute.
-- - System/Settings: core/system/post_install.go, with the identifiers of a user in
--   System/Settings/Users. System/Config: the map of core/system/grub.go, with its entries
--   (System/Config/Entries), what is read (System/Config/Parsed), where reading panics
--   (System/Config/Panics), and writing and reading (System/Config/RoundTrip,
--   System/Config/Rewrite). System/Grub: the rest of core/system/grub.go, with the paths of
--   scripts in System/Grub/Scripts.
-- - Recipe/Order, Recipe/Mounts, Recipe/Tables: SetupMountpoints, setupFstabEntries and
--   setupCrypttabEntries of core/recipe.go. Recipe/Order/Sorted and Recipe/Order/Members: the
--   order, and that no mountpoint is added. Recipe/Tables/Fields and Recipe/Tables/Agreement:
--   the lines of the two tables.
-- - Recipe/Values and Recipe/Dispatch: the parameters of an operation and the choice of it.
--   Recipe/Setup, with Recipe/Setup/Partitions and Recipe/Setup/Volumes: runSetupOperation and
--   RunSetup; Recipe/Setup/Secrets: a setup with LUKS passwords. Recipe/PostInstall:
--   runPostInstallOperation and RunPostInstall, with what they do in a chroot in
--   Recipe/PostInstall/Calls and Recipe/PostInstall/Safety. Recipe/Install: Install.
-- - Recipe/Program: ReadRecipe and albius.go. Recipe/Program/Phases and Recipe/Program/Failures:
--   what a whole run is, and where it stops.
--
-- A record of Go is a record here, and a pointer that a function changes is an argument and part
-- of the result. An `interface{}` argument is `Any` of Lvm/Types. A nil dereference, an index
-- out of range and a slice out of range are the outcome `panic`.
--
-- Loops over lists are structural. The loop that orders mountpoints runs on fuel, the largest
-- depth and two, which is enough: order_mountpoints-IsOrdered shows that it returns. The loops
-- that wait for a device have no bound in the code; they run for the `patience` of the Platform
-- and then have the outcome `hang`. Disk.WaitUntilAvailable has its bound in the code, and keeps
-- it here.
--
-- Numbers: Atoi fails outside 64 bits as in Go; beyond that an `int` of Go is an unbounded
-- integer. A float64 is a type of the Platform with the functions that parse and print it.
--
-- The container storage library of OCISetup is the interface `Images` of Disk/Images. The
-- decoding of a recipe and reexec.Init are parameters of `main`, and `range_order` of Platform
-- is the order in which Go ranges over a map. Of the package reflect, setField needs the names,
-- kinds and types of values; a type is told from others by its full text.
--
-- Not modelled: what is printed on the terminal, and the modes of files.
pub mod Base
pub mod Machine
pub mod Util
pub mod Luks
pub mod Disk
pub mod Lvm
pub mod System
pub mod Recipe
mod Tests
