-- ===== src/Lib.antt =====
-- NDSE core: a model of the parts of the emulator that compute, and what makes them correct.
--
-- The emulator runs Nintendo DS programs by translating the code of the two ARM processors (ARM9
-- and ARM7) into host code, block by block. `Core/Disassembler.h` decodes each instruction word into
-- a context that the translator (`Core/Compiler.cpp`) reads. The translated code calls the load and
-- store functions of `Core/HLE.cpp`, which go through the memory map to plain memory or to the
-- register files of `Core/IORegs.cpp`. The processors talk to each other over those registers: a
-- pair of FIFOs, their state bits, and interrupts.
--
-- Which file models what:
--   Disassembler: `Core/Disassembler.h`, `disassembler::context` and the enumerations of codes.
--     Disassembler/Arm: `decode_instruction` and the groups of ARM instructions below it.
--     Disassembler/Thumb: `decode_instruction_thumb` and the groups of Thumb instructions.
--     Disassembler/Decode: `disassembler::decode` of `Core/Disassembler.cpp` for both modes.
--     Every decoding function is a function from context to context under its own name. Bit fields
--     are written as quotients and remainders (`field op lo width`), and a C `switch` as `switch`.
--     Disassembler/Encode holds an assembler, written from the ARM encoding and not from the source,
--     which the round trips start from.
--   Fifo: `Core/fifo.h`, the class template `fifo<T, size_bits>` as used with 16 entries. The two
--     positions are 32-bit counters that wrap around.
--   Ipc: `ioregs` and the cases 0x180 and 0x188 of the register files in `Core/IORegs.cpp`, the
--     transfer registers, and `interrupt<T>::fire` of `Core/Interrupt.h`. A `Machine` holds the state
--     of both sides; an operation takes the processor that performs it.
--   Status: `loadcpsr` and `storecpsr` of `Core/HLE.cpp`, with the context of each processor mode
--     (`Core/ArmContext.h`, `Core/CPUMode.h`, `Core/Processor.h`). The condition flags live in a copy
--     of the host's flags; a change of mode copies the registers that both modes share. Status/Flags
--     is about the flags, Status/Modes about the copy, Status/Bank about the change of mode,
--     Status/Banked and Status/Numbers about the banks and the numbers of the modes in the manual.
--   Crc: `util::get_crc16` and its table in `Core/Util.cpp`.
--   Memory: `memory_block` (`Core/Mem.h`), `addr2page` and `process_memory` (`Core/MemMap.h`), and the
--     loads, stores and array transfers of `Core/HLE.cpp` for one processor. `map` gives the block of
--     each page, so that several addresses can share a block. The flags of a page are Booleans. What a
--     page with an access handler does (`memory_region_base`) is the parameter `Handlers`.
--     Memory/Plain is about single transfers, Memory/Array and Memory/Store about the array transfers,
--     Memory/Stream models and proves the checksum over a range of memory.
--   Dma: `start_dma` of `Core/dma.cpp`, with its three registers beside the memory. The source has
--     them in the register page, where a transfer into that page changes them or starts another.
--   Lz77: the decoder of `Core/lz77.h` over any `mixin`. Lz77/Encode holds an encoder for the format,
--     written for the round trip and not taken from the source.
--   Interpreter: `Core/HLCore.cpp`. Interpreter/Shifter is the barrel shifter and Interpreter/Execute
--     the table of functions, with the arguments that `Core/Compiler.cpp` pushes for it. `execute`
--     sums up the call that `compile_instruction` emits where `HLE_CORE` is defined, which
--     `Core/Compiler.h` undefines; the stub that checks the condition is left out.
--   Vram: `Core/vram.cpp`, the control registers of the video memory banks and what a pass over them
--     asks of the memory maps. What lies behind the table `lut_fg` is a parameter.
--     Vram/Access holds the access handlers of `Core/vram.h`, an instance of `Handlers` that looks
--     every address up on the ARM9's map, as the source does.
--     Vram/Placed says where the requests leave a bank, Vram/Homes has a table of the homes of the
--     banks A to E, and Vram/Steps, Vram/Calls and Vram/Replay are about the calls of a pass and about
--     several passes.
--   Spi: the SPI bus and the touchscreen of `REGISTERS7_1` in `Core/IORegs.cpp`.
--   Interrupt: `interrupt<T>` of `Core/Interrupt.h`. The run of a handler, `HLE<T>::invoke`, is the
--     parameter `invoke`. Interrupt/Dispatch is about the context of the interrupted mode,
--     Interrupt/Serve about which interrupts a poll serves.
--   Printer: `disassembler::get_str` of `Core/Disassembler.h` and the texts of `Core/Disassembler.cpp`.
--     Printer/Print is the pass over a format, Printer/Formats the texts of the instructions,
--     Printer/Directive the characters behind `%`. Printer/Tokens says what a format means,
--     Printer/Spelling how the formats spell it, and Printer/Pieces, Printer/Refine and Printer/Total
--     compare the pass with it. Printer/Hex reads the numbers back.
--   Translator: the loop of `compile_instruction` in `Core/Compiler.cpp` that pushes the arguments of
--     the interpreter's functions. Translator/Call compares them with Interpreter/Execute.
--   MemMap: `memory_map` of `Core/MemMap.h`. The requests that reach it, as values; MemMap/Entry is
--     `region_entry`, MemMap/Apply the table of pages over an interval map of the itl library, which is
--     the parameter `Overlay`. MemMap/Consistent is about mapping a region, MemMap/Unmap and
--     MemMap/Choice about unmapping it, and MemMap/Points has a simple interval map.
--   Regs: the loads and stores of `REGISTERS9_1` and `REGISTERS7_1` in `Core/IORegs.cpp`, over Ipc and
--     Spi. DMA, the remapping of video memory and the callbacks are parameters.
--   Base: Boolean tests, `switch`, lists, tables, 32-bit words, and the laws of `bit_and`, `bit_or`
--     and `bit_xor`.
--
-- Numbers are natural numbers; where the source computes on 32-bit words the result is reduced
-- modulo 2^32. The decoder does not loop, the FIFO operations take a fixed number of steps, and the
-- checksum, the copy of registers, the array transfers and a back reference recur on a length or a
-- number. Some loops run on fuel, and `none` is fuel that ran out. A round of a DMA transfer takes
-- one off the count of its control word, so the count is fuel enough; a followup page takes at least
-- one byte off the length of its range, which is the fuel; a round of the LZ77 decoder reads one
-- token, and the number of tokens is fuel enough. The passes over a format take a character at least
-- in each round, so its length is fuel enough; a 32-bit number has eight hexadecimal digits at most.
--
-- A stop in the debugger (`DebugBreak_`) is counted and the program goes on, as the source does when
-- no debugger is attached. The two processors' accesses to `ioregs` are serialised by its mutex in
-- the source and are a sequence of steps here.
--
-- Not modelled: the rest of the translator, which emits host code; the interval map of the itl
-- library, which is not in the repository; the physical regions and their setup; the names of the
-- registers, which are for logging; the emulated callbacks that LZ77 reads through, which run
-- translated code; DMA into the register page; breakpoints, source debugging, logging, signals
-- and the loaders of ROM files, which deal with the host.
pub mod Base
pub mod Disassembler
pub mod Fifo
pub mod Ipc
pub mod Crc
pub mod Status
pub mod Memory
pub mod Dma
pub mod Lz77
pub mod MemMap
pub mod Interpreter
pub mod Interrupt
pub mod Vram
pub mod Spi
pub mod Regs
pub mod Printer
pub mod Translator
