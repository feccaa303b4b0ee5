-- ===== src/Lib.antt =====
-- rustfits: a library that reads and writes FITS files, in Rust below a Python interface. This library
-- models parts of the Rust code that carry its own logic, and proves what makes them correct.
--
-- The program's parts. A FITS file is a list of header-data units (src/fits.rs, src/hdu.rs). Each unit has
-- header cards (src/header.rs) and an image or table (src/hdu_image.rs, src/hdu_table/,
-- src/hdu_ascii_table/); tile-compressed images and tables (src/hdu_image_compressed/,
-- src/hdu_table_compressed/) call the codecs of src/zimage/ on each tile. src/checksum.rs sums the bytes of a
-- unit for its DATASUM and CHECKSUM cards. src/cache.rs keeps decompressed tiles for both kinds of compressed
-- unit.
--
-- What is modelled, and where.
--
-- Checksum.antt models src/checksum.rs: compute_checksum_bytes (sum_words is the loop over the chunks and
-- the tail, fold_carry the end-around carry), ones_complement_add, and ChecksumStream with new_stream, feed
-- and finish. Checksum/Ascii.antt has encode_checksum_ascii, decode_checksum_ascii and the steps of
-- cards_with_checksum between the placeholder and the characters (checksum_chars). A u8 slice is a list of
-- numbers below 256, a u32 a number below 2^32 whose additions wrap as in a release build. The carry loop has
-- six rounds of fuel (Checksum/Carry.antt shows that it ends before), the loop over excluded characters
-- sixteen (Checksum/Ascii/Table.antt evaluates all bytes). Checksum/Carry, Sum, Overflow, Stream and
-- Ascii/RoundTrip, Ascii/Card hold the proofs. feed_all is any sequence of calls of feed. Checksum/Section.antt
-- models stream_data_section_checksum of src/hdu_image.rs over the state of Storage/World: its argument `chunk` is
-- CHUNK, and `bytes_count`, the padded size of the section, is given by the caller.
--
-- Plio.antt models src/zimage/plio.rs. Words and pixels are bit patterns; an error message is a constructor
-- of PlioError. Plio/Encode.antt follows encode_plio_i32: encode_loop recurs on the pixels after ip,
-- encode_step is an iteration that has a next pixel, emit_run the part of an iteration that writes words,
-- emit those words. Plio/Decode.antt follows decode_plio: decode_loop recurs on the words from ip on, so no
-- fuel is needed. The byte order of the target is a parameter of the decoder. Plio/Output and Plio/Step
-- have the effect of each word, Plio/Runs and Plio/Emit that of a run's words, Plio/Lossless, Plio/Turns and
-- Plio/RoundTrip the loop over a tile, Plio/Size the length of the stream, Plio/Stream the header and the
-- round trip, Plio/Lost the images that the words do not carry.
--
-- Cache.antt models src/cache.rs. The crate `lru` is a parameter, LruCrate of Cache/Lru.antt: its operations,
-- and how they act on the entries, the most recently used first; a list is an instance in the tests. A
-- poisoned mutex is a field of the state. pop_while is the loop of put and of set_capacity, with the number of
-- entries as fuel (Cache/Trim). Cache/Put and Cache/Sequence have the calls of one thread; Cache/Race has the
-- threads as a step relation, in which put and set_capacity take two steps each, since they read or store
-- the capacity before they take the lock, and Cache/Over the order of steps that leaves the cache above its
-- capacity. No step panics, so a reachable mutex is not poisoned.
--
-- Gzip.antt models src/zimage/gzip.rs, and byteswap_in_place of src/common.rs. The crate flate2 is a parameter,
-- Flate2 with IsLossless: a written stream is read back. The new buffers of shuffle and unshuffle are not
-- initialised in the code; here they hold any numbers, and the theorems hold for all of them. The byte order
-- of the target and the part of a buffer before the first aligned address are parameters. Gzip/Buffer has
-- buffers that a loop writes, Gzip/Scatter two nested loops, Gzip/Shuffle, Gzip/Swap and Gzip/Codec the
-- proofs. A slice index out of range is the error out_of_bounds.
--
-- Rice.antt models the bit writer and the bit reader of src/zimage/rice.rs. Each loop over the remaining bits
-- takes at least one bit in a turn, so their number is fuel enough; a unary code fails after 1024 zeros. The
-- reader holds the data from byte_pos on. Rice/Writer counts the bits written, and Rice/Digits, Rice/Written and
-- Rice/Stream say which they are. Rice/Diff models how the
-- encoder codes the difference of two pixels (pdiff and the ZigZag code of encode_rice), and how
-- decode_rice_int_u32buf decodes it; an i32 is its bit pattern. Rice/Buffer models the buffer of 64 bits of
-- decode_rice_int_u32buf: refill, the reads of bits (take_bits) and of unary codes (count_zeros). A turn of the
-- loop over zeros that does not end it leaves fewer bytes, or ends in an error, so the number of bytes and two
-- is fuel enough. Rice/Filled, Rice/Taken, Rice/Unary and Rice/Count say which digits of the stream the buffer
-- holds before and after each of them, and Rice/Fields puts the buffer behind the writer.
-- Rice/Tile models rice_params and the blocks of encode_rice: the sum and the mean of the codes (f64 is the
-- parameter Floating, with the laws IsSumming), the parameter fs, and the three forms of a block. A block takes
-- at least one pixel, and the loop over psum halves it, so the fuel is the number of pixels, and psum. Rice/Untile models
-- decode_rice_int_u32buf over those blocks; the pixels it gives are the i32 that it passes to write_at. Rice/Encoded,
-- Rice/Blocks, Rice/Choice, Rice/Seed, Rice/Decoded and Rice/RoundTrip have the proofs. Not modelled: how
-- encode_rice takes pixels from bytes, write_at, and decode_rice_slow_i64 for pixels of 8 bytes.
--
-- Header models src/header.rs. Header/Text has the text functions of the language that the code calls, over
-- bytes; a text is ASCII. Header/Value models the split of a card into value and comment and
-- parse_value_with_continue: what is no string and no truth value is `plain`, since numbers are read by the
-- language. Header/Build models build_string_value_cards, card_string and pad_to_card; a turn of its loop takes at
-- least one byte, so the number of bytes is fuel enough. Header/Trim, Header/Quoted, Header/Parts (where a string
-- is cut), Header/Chain and Header/Single (a value on one card) have the lemmas, and Header/Strings the round trip. Header/Keyword models the keyword of
-- a card, its lookup and storage forms, validate_keyword and is_protected_key; Header/Edit the functions on the
-- cards of a header, find_card_for_key to filter_protected_cards, where an index into the cards is a position in a list.
-- Header/Removed describes the CONTINUE cards of a value. Header/Found, Header/Written, Header/SetGet,
-- Header/Delete and Header/Protected have the proofs. HIERARCH values,
-- commentary cards and numbers as text are not modelled, nor the classes, which are Python bindings.
-- Header/Disk.antt models rewrite_header_to_disk over the state of Storage/World: a header shares its offsets
-- with the layout of the file, and `own` is their index in that list. Products of block counts are not cut to 64
-- bits: in the theorem the file is shorter than 2^63. Header/Disk/Reader.antt models the loop of
-- parse_hdus_from_file in src/fits.rs that reads one header, on a store. A turn reads a block, so the length of
-- the file and one is fuel enough. What that function does with the cards then is not modelled. Header/Disk/Cards
-- has the lemmas on one block, Layout those on the bytes of all blocks, Reopen those on the reader's loop, Written and
-- Offsets those on the write and the offsets, and Rewrite the theorem.
--
-- Storage.antt models the backing store of src/common.rs: a file on disk, a buffer in memory, or a remote view
-- that cannot be written. Its bytes are a list, and `faults` are the results of the next calls of the operating
-- system, so that each call may fail, and a write fail after any number of bytes. Storage/World.antt has the
-- handle (absent after a close, or its lock poisoned), the offsets of the HDUs, and the taint flag, as one
-- state that each operation takes and returns; `or_taint` is the closure that sets the flag. Storage/Shift.antt
-- has the operations that move bytes: shift_file_tail_and_update_offsets (shift_tail is what it does for a
-- delta above 0, with the size of a chunk as an argument), its mirror towards the start, zero_fill_range,
-- stream_copy_in_file and grow_file_to_at_least. Each turn of a loop moves at least one byte, so the number
-- of bytes is fuel enough. Storage/Bytes has a file's bytes by index; Storage/Move, Forward, Opened, Zero,
-- Insert, Backward and Remove say where the bytes are afterwards; Storage/Next and Grow deal with the room for
-- an HDU; and Storage/Taint, Explained and Errors with failures.
--
-- Remote.antt models src/remote_range.rs: HttpRangeStore with fetch_blocks, read and seek, over the cache of
-- Cache.antt. The crate ureq and the server are a parameter, Network: a request for a range gives a reply, and
-- the agent may change. Each error, a panic included, is a constructor of RemoteError. Remote/Plan.antt has
-- plan_block_fetches: plan_loop is its outer loop and run_loop the inner one, at an index that grows to the
-- length of `have`. cached_blocks, fetch_runs and copy_blocks are the three passes of read. Remote/Runs says
-- which blocks the runs hold, Remote/Blocks what a block is, Remote/Cached and Slots which blocks are at hand,
-- Remote/Fetch what the server's answers make of them, Remote/Span and Copy the bytes of a read; Remote/Read and
-- Served put them together. A server is trusted to send, with status 206, bytes that belong to the range.
--
-- Prelude.antt passes the shared names on: Boolean tests, lists over the native numbers, bit operations as
-- arithmetic, and results with errors.
--
-- Not modelled: input and output, numpy and Python bindings, and the parts that the manifest lists as
-- planned.
pub mod Prelude
pub mod Cache
pub mod Checksum
pub mod Gzip
pub mod Header
pub mod Plio
pub mod Remote
pub mod Rice
pub mod Storage
