-- ===== src/Bytes.antt =====
-- The byte codec of AtlasNet/lib/Native/Global/Serialize: ByteStream.hpp, ByteWriter.hpp and
-- ByteReader.hpp. The first children define the two classes, the others set a reader against a
-- writer.
pub mod Result
pub mod Writer
pub mod Reader
pub mod Codec
pub mod Integers
pub mod Varint
pub mod Blobs
pub mod Sequence
pub mod Overlong
