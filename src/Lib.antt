-- ===== src/Lib.antt =====
-- Verification of a boot loader for XNU on 32-bit ARM boards under U-Boot.
--
-- The console command `imgx` loads an image: a kernel, a driver, a device tree, or a table of
-- contents of these. Its Mach-O commands may be compressed by LZSS or QuickLZ. A driver is copied
-- behind the kernel; a kernel is handed to the Mach-O loader, which maps its segments. `rdx` adds
-- a ramdisk behind them. The globals of main/loader.c keep what is loaded, and where the memory of
-- the kernel ends. `mach_boot` enters what is loaded into the device tree, puts boot arguments and
-- the flat tree behind the kernel, and starts it.
--
-- Which file is about which part:
-- - Base: tests on native numbers, lists, 32-bit words, the byte memory (`Ram`), and text.
-- - Runtime: the macros of bootkit/runtime.h (alignment, pointer sums, ranges), which the
--   repository does not hold. `Runtime` is the parameter, `IsRuntime` what is asked of it, and
--   `sample` in Runtime/Sample a concrete one.
-- - Region: main/memory.c. `memory_reserve` gives the new region and the block.
-- - Macho: mach-o/macho.c. `Context` is `mach_loader_context_t`; `mach_file_vmsize` is in
--   Macho/Size, `mach_file_map` in Macho/Map, the relocators in Macho/Relocate, over
--   `RelocFormat`, the lookup of symbols in Macho/Lookup, over `SymbolFormat`, and
--   `mach_file_code_data_range` in Macho/Extent. The structures of the format are the parameter
--   `Format`, offsets and constants; Macho/Sample has those of 32-bit ARM.
-- - DeviceTree: device_tree/device_tree.c, the tree and its operations; DeviceTree/Flatten has
--   `FlattenNodes` and `DT__FlattenDeviceTree`, DeviceTree/Find `DT__GetName` and `DT__FindNode`.
--   A node is named by an identity that stands for its address, a block of nodes or of properties
--   by its address; the heap is the parameter `Heap`. DeviceTree/Flatten/Decode has a reader of
--   the flat form, as the kernel has one.
-- - Plist: serialize/xml_plist.c. `Plist` holds the buffer, the free list of tags and the table
--   of symbols; `Tag` is a tag with what its pointers lead to, `Parsed` how a parse function
--   ends. The names of the elements, of bootkit/xml.h, are the parameter `Format`.
-- - Strol: main/strol.c, `strtoul`.
-- - Jsmn: serialize/jsmn.c and serialize/jsmn.h. `Parser` is `jsmn_parser` with the array of
--   tokens; `parse_char` is the body of the loop of `jsmn_parse`.
-- - Symbols: mach-o/macho_util.c, the two binary searches.
-- - Lzss: compressed/lzss.c, `decompress_lzss`; `adler32` is in Lzss/Adler. Lzss/Stream has the
--   format that it reads: items, the text they stand for and the bytes they are written as.
-- - Image3: image3/image3.c. The structures of IMG3 are the parameter `Img3Format`;
--   Image3/Content has the content of an image, a list of the types and lengths of its tags.
-- - Loader: main/loader.c, main/loader.h and main/hfs_header.h. `Loader` holds the globals, the
--   memory and the state of the world outside. Loader/Command is `load_macho_from_command`, cut
--   into the steps that its comments name; Loader/Macho is `load_macho`; Loader/Image has the
--   device trees, the table of contents and `load_general_image`; Loader/Console has `do_imgx`
--   and `do_rdx`. U-Boot, the heap, QuickLZ and the parsers of device trees are the parameter
--   `Services` (a parser may return, stop the machine or never end, `TreeParse`), the board and
--   the bytes of uninitialised variables the parameter `Board`.
-- - Boot: main/mach_boot.c and main/boot_args.h. `Boot` holds what the command reads and changes.
--   Boot/Map has the ranges under `/chosen/memory-map`, Boot/Start the command: its
--   `flatten_device_tree` is `place_device_tree`, and the parts of `mach_boot` are
--   `fill_memory_map`, `lay_out` and `out`. `Host` stands for `%x`, an uninitialised variable and
--   a buffer from the heap.
-- - JsDeviceTree: main/JS_device_tree.c. `Context` has the text and the tokens; the walks return
--   a `Walk`, and end in a failed `assert`, an error, or the number of tokens to skip.
-- - XmlDeviceTree: main/XML_device_tree.c, over Plist and DeviceTree, which share the heap.
--
-- Numbers are native naturals; `uint32_t` sums are taken modulo 2 ^ 32 (`add32`, `sub32`,
-- `mul32`). Addresses in a `Ram` are naturals: the offset of a field from the start of its
-- structure is not wrapped, and neither are the running pointers of the decompressor. A loop whose
-- bound the code reads again in each round runs on fuel: 2 ^ 32 rounds for load commands, sections
-- and relocations, whose counter is 32 bits wide; one round more than the bytes of the source for
-- the decompressor; one more than the symbols for the binary searches, and than the characters for
-- the tokenizer. The walk over IMG3 tags has 2 ^ 32 rounds, which tags that are not empty cannot
-- use up. The walks of the parser of device trees take their fuel as an argument, as an object
-- with an odd number of tokens has no bound; its tokens grow by 100 at most as often as the text
-- has characters, more often than a text can fill them.
--
-- The property list parser has one more round than the bytes of its text, and each tag takes two
-- bytes at least; the lookup by path one more than the characters of the path.
--
-- Not modelled: what is printed; DT__FreeNode and DT__FreeProperty, which nothing calls; QuickLZ
-- (compressed/quicklz.c), a third-party library; of main/mach_boot.c what quiets the devices
-- before the kernel starts.
pub mod Base
pub mod Runtime
pub mod Region
pub mod Macho
pub mod DeviceTree
pub mod Plist
pub mod Lzss
pub mod Strol
pub mod Symbols
pub mod Jsmn
pub mod Image3
pub mod Loader
pub mod Boot
pub mod JsDeviceTree
pub mod XmlDeviceTree
