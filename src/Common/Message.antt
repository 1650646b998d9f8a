-- ===== src/Common/Message.antt =====
-- src/common/message.cpp: splitting a command into words, and strict parsing of numbers.
pub mod Words
pub mod Numbers
pub mod RoundTrip
unfoldable pub use Words.*
unfoldable pub use Numbers.*
