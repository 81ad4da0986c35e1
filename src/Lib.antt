-- ===== src/Lib.antt =====
-- A model of the libraries in src/ of prog-dir, a collection of C programs, and proofs about them.
--
-- src/array has ranges (Array/Range) and growing buffers (Array/Buffer, with the realloc of the C
-- library as a parameter); src/buffer_io (BufferIo) reads a file into such a buffer. src/table (Table)
-- is the hash table that other parts keep names in.
--
-- src/vluint (Vluint), src/base16 (Base16) and src/base2 (Base2) are codecs between bytes and
-- numbers or text; src/metabase (Metabase) puts a prefix in front of such texts and src/metahash
-- (Metahash) a header in front of digests. src/dzip (Dzip) is a compressor over chunks: Dzip/Format
-- has the header, Dzip/Deflate the encoder, Dzip/Inflate the decoder and the loop over the chunks of
-- a range; the encoder and the decoder write and read their arguments by vluint.
--
-- src/chain-io (ChainIo) puts a buffer between a program and a source or sink behind a callback, which
-- is a parameter. src/libc (Libc) has string functions of a C library.
--
-- src/paren-parser (Paren, and Paren/Preprocessor for includes and macros) and src/json (Json) read
-- trees from texts: Json has the values and what is not nested, Json/Reader the reader of values,
-- arrays and objects, Json/Objects the members of an object, which a table keeps in the program, and
-- Json/Fetch the functions that fetch a member.
--
-- src/tar reads and writes archives: Tar has what both share, Tar/Read the update of a state from
-- memory (tar_update_mem), Tar/Stream the reading from a file, Tar/Write headers and padding, and
-- Tar/Paths the header of a path. src/path (PathName) joins names and makes directories.
--
-- A buffer or a range is the list of its bytes, each a number; pointers into it are counts of bytes
-- from its beginning. Functions keep their C names; a loop has a function of its own, named for the
-- function that holds it. `size_t` has 64 bits, `dzip_size` 32, and wrap-around is written out.
-- Allocation is taken to succeed, and messages to the log are left out.
--
-- Fuel: `deflate_loop` gets a round for each position of the window, `dzip_deflate_loop`,
-- `inflate_loop`, `inflate_range_loop`, `update_loop` and `parse_loop` one for each byte, `read_value`
-- two for each byte, since an array or an object takes one call for itself and one for each part, and
-- `tar_write_header` two, since only the header of a long name is written inside another; `none` and
-- `out_of_fuel` stand for fuel that ran out.
--
-- `pull_loop` and `flush_loop` have a round for each byte that is wanted or given, which is enough for a
-- callback that makes progress; macros can go on for ever, and the fuel of `preprocess` is an argument.
--
-- Not modelled: what only calls the system (files, sockets, processes, memory), the programs'
-- option handling, what json_parse frees after a failure, memcmp_length of src/libc, the unfinished
-- src/hash-fs, src/blkd and src/url, and the abandoned versions under junked/ and backburner/.
pub mod Array
pub mod Base
pub mod Base16
pub mod Base2
pub mod BufferIo
pub mod ChainIo
pub mod Dzip
pub mod Http
pub mod Json
pub mod Libc
pub mod Metabase
pub mod Metahash
pub mod Paren
pub mod PathName
pub mod Table
pub mod Tar
pub mod Vluint
