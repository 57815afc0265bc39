-- ===== src/Output.antt =====
-- src/cpp/agent_util.c: the text of XML elements. Bytes are numbers, and strings end where the list
-- does. The output stream is the text written so far.
mod Defs
pub mod Escape
pub mod Attributes
pub mod Tree
mod Tests
unfoldable pub use Defs.{
  count_quotes, escape_loop, allocated_for, escape_string, attributes_text, element_text,
  echo_xml_element, complete_xml_element, open_xml_element, close_xml_element,
}
pub use Defs.{Output}
