-- ===== src/Wire.antt =====
-- The wire protocol of package tool: tool/cMsgConst.go, cMsgCrypto.go, cMsgRead.go, cMsgModel.go
-- and the cipher helpers of tool/tool.go. A byte slice is a list of numbers.
pub mod Errors
pub mod Numbers
pub mod Cipher
pub mod Packet
pub mod Message
pub mod Toys
mod Runs
