-- ===== src/Text.antt =====
-- The parts of the C++ standard library that the sources read and print text with: digits, the
-- conversions of <string>, and the extractions of <istream>. A text is the list of its bytes.
pub mod Digits
pub mod Numbers
pub mod Streams
