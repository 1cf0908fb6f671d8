-- ===== src/Lib.antt =====
-- The 8086 decoder library (libdecoder_8086), the stand-alone decoder that came before it
-- (decoder_8086), the simulator that runs what it decodes (simulator_8086), the haversine input
-- files and their readers (data_gen), the profiler (rdtsc) and the repetition tester (rep_tester).
--
-- Parts. libdecoder_8086/libdecoder.c turns the bytes at a pointer into a struct
-- decoded_instruction_s: decode_bitstream tries the entries of op_cmds
-- (libdecoder_8086/instruction_bitstream.h) in order, and parse_instruction reads the fields, the
-- displacement or address and the data that the matching entry asks for. decoder_8086/decoder.c is
-- the older decoder: main reads the file in chunks of 4096 bytes and chooses by the first byte a
-- function that writes the assembly text while it reads the bytes of the instruction.
-- simulator_8086/simulator.c loads a program into 64 KB of memory and, round by round, decodes the
-- bytes at ip and hands the instruction to the handler of its operation, which changes registers,
-- memory, flags, clocks and ip.
--
-- data_gen/data_gen.c draws pairs of coordinates and writes them to a JSON file and to a binary
-- file. data_gen/json_data_parser.c estimates the number of rows from the size of the JSON file,
-- parses the rows into a preallocated array or a linked list, and averages their distances;
-- data_gen/bindata_reader.c checks the binary file. rdtsc/rdtsc_utils.h times blocks of code
-- between two macros, rdtsc/rdtsc_utils.c guesses the frequency of the clock, and
-- rep_tester/reptester.c runs a test's callbacks until its time is over or the test says so; it
-- turns ticks into seconds by rdtsc_utils.c.
--
-- Files.
-- - Shared: lists, results, Boolean tests, bit operations and their laws on 16-bit words. Outcome
--   is how C ends here: a value, exit(1) through the macro ERROR, or an access outside an array.
-- - Decoder/Types and Decoder/Maps: the enums, the structs and the lookup tables.
--   Decoder/Bitstream: struct opcode_bitstream_s and the sixteen entries of op_cmds.
-- - Decoder/Extract: the extract functions. Decoder/Fields, Decoder/Modes and Decoder/Parse:
--   parse_instruction, one function per stage in the order of the source, and decode_bitstream.
--   Decoder/Print: print_decoded_instruction, with a line as the strings and numbers that its
--   formats join.
-- - Decoder/Disassemble: main of libdecoder_8086/decoder.c from the fread of the file on, with its
--   limit of 1 MiB (disassemble_file, disassemble), Disassemble/Prefix, the part of the buffer
--   that it reads, and Disassemble/Programs, whole programs.
-- - Decoder/Locality, Decoder/Totality, Decoder/Table, Decoder/DataWord, Decoder/Printing: how
--   much is read, when decoding returns, the entries of the table against each other, the range of
--   the data, and the text that is printed for an assembly line.
-- - Decoder/Encoding: the formats of the 8086 manual as an encoder with assembly lines of its own,
--   and what decoding makes of each.
-- - Standalone/Extract: the name tables and the extract functions of decoder_8086/decoder.c.
--   Standalone/Moves, Regmem and Operations: its process functions, which return the bytes
--   consumed and the line. Standalone/Main: the chain of conditions of main (handler, process) and
--   its loops (decode_chunk, decode_file).
-- - Standalone/Reach, Kept, Returning: the bytes that a handler reads, a buffer with more bytes,
--   and one with six. Standalone/Accepts: the instructions that main takes. Standalone/Chunk,
--   Sequences, File: the two loops. Standalone/Agreement: the older decoder next to the library on
--   the encodings of the manual. Standalone/Programs and Cut: whole files.
-- - Simulator/Machine, Simulator/Clocks, Simulator/Execute, Simulator/Run: the globals,
--   get_ea_clocks, the four handlers, and main from the load of the file to the end of its loop.
-- - Simulator/Registers, Flags, Addressing, Arithmetic, Moving: what the operations on the state
--   compute. Simulator/Invariant: what stays true of the machine. Simulator/Rounds, Jumping,
--   Countdown: the loop of main.
-- - DataGen/Doubles: the parameter that stands for double, printf, sscanf and ReferenceHaversine.
--   DataGen/Scan and DataGen/Parse: advance_until, find_string, extract_until and parse_file, with
--   the bytes that are left in place of file_data_ptr and file_data_remaining. Parse/Lengths,
--   Parse/Total: how much of the input is left, and the loop over the rows.
-- - DataGen/Items: the interface of a store of items, with its laws. Store/Arrays and
--   Store/Linked: data_array and the linked list with its heap; Store/Chain and Store/Room: the
--   laws for the list. DataGen/Average: calculate_haversine_average and estimate_total_entries.
--   DataGen/Refine: parse_file over any store against a plain list of items.
-- - DataGen/Generate and DataGen/Reader: get_random_data and the loop of data_gen.c, and the loop
--   of bindata_reader.c. DataGen/RoundTrip: the files of data_gen.c in the hands of the two
--   readers, the estimate for them, and the clusters.
-- - Profiler/Blocks: struct profile_block, TAG_DATA_BLOCK_START and TAG_BLOCK_END.
--   Profiler/Nesting: tagged code as a tree of calls. Profiler/Accounting, Profiler/Totals: what
--   such code does to the table. Profiler/Frequency: guess_cpu_freq and get_ms_from_cpu_ticks.
-- - RepTester: rep_tester and rep_tester_run, with callbacks as functions on the context.
--   RepTester/Ending: its rounds. RepTester/FileTest: rep_tester/rep_test1.c, with what the
--   operating system answers as parameters. RepTester/Ranges and FileTimes: the times that it
--   keeps.
-- - Runs: concrete programs and files.
--
-- Numbers. A uint16_t or int16_t is a natural number below 2 ^ 16 in two's complement, with the
-- wrap-around written out; uint8_t cells are cut to a byte when they are written. A line keeps a
-- number as its 16-bit pattern, with whether %d shows an int16_t or a uint16_t. A buffer is a
-- function from offsets to bytes, with nothing past its end: a read there, which C does not
-- define, is the value out_of_bounds and ends the loop of the model, though the C may go on. The
-- read of instruction_name[MAX_INST] in parse_instruction is the one exception: op_name becomes
-- none, the pointer that no code follows. The loop of main takes fuel, one unit for each round and
-- one for the test that ends it; a program may loop forever, so no amount is enough for all, and
-- the fuel that a LOOP needs is proved. The loop of libdecoder_8086/decoder.c has one unit of fuel
-- for each byte of the file. A round of the inner loop of decoder_8086/decoder.c moves on in a
-- buffer of 4096 bytes, so 4097 units are enough for it, and the outer loop has one unit of fuel
-- for each chunk; bytes_available wraps at 2 ^ 64. The loop of parse_file has one unit of fuel for
-- each byte behind the header and one more, which it never uses up. The wait of guess_cpu_freq,
-- whose readings of the two clocks are parameters, and the loop of rep_tester end when a clock or
-- a callback says so, and their fuel is compared with the reading or the round at which that
-- happens.
--
-- Not modelled: logging, dumps and what the handlers print, the parsing of options and the
-- handling of files. In the decoder and the simulator uninitialised and undefined results of C do
-- not arise on the modelled paths other than as an access outside an array; the uninitialised
-- flags and values of parse_file are arguments. The table of the profiler has a block for every
-- index, data_item_count does not wrap, and the number of bytes of profile names is not bounded.
-- The reports of the profiler, the statistics file of data_gen, haversine.c (a listing of Molly
-- Rocket's), and the other programs that measure in rdtsc, rep_tester, page_faults, asm_linking
-- and inspect_loop_assembly are left out.
pub mod Shared
pub mod Decoder
pub mod Standalone
pub mod Simulator
pub mod DataGen
pub mod Profiler
pub mod RepTester
mod Runs
